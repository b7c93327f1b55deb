-- ===== src/Runner/Frames/Ends.antt =====
-- That the loop of invokeRequestV2 of runtime/runner.go ends, for a process that answers.
use fluxplane_dex.Prelude.{
  ℕ, zero, suc, ◌<◌, ◌≤◌, String, ◌≡◌, ◌≢◌, refl, not, ◌&&◌, Option, none, some, ◌==◌, arith,
  Bool-cases, inl, inr,
}
use fluxplane_dex.Prelude.Outcome.{Outcome, ok, err}
use fluxplane_dex.Endpoints.{EndpointApi}
use fluxplane_dex.Grants.Release.{SecretApi}
use fluxplane_dex.Protocol.{version, Request, Frame}
use fluxplane_dex.Runner.Host.{Host}
use fluxplane_dex.Runner.Frames.Conversation.{Obeys, UnsentTo, CutOff, invoke_request_v2-Obeys}
use fluxplane_dex.Runner.Frames.{
  Received, frame, broken, blocked, Exit, closed, Process, PluginEvent, FrameKind, response,
  request, event, other, frame_kind, Turn, done, again, Transcript, after_send, bad_target, noted,
  take_frame, take_received, after_turn, after_root, with_root, rounds, invoke_request_v2,
}

module _ {api : SecretApi} {endpoint_api : EndpointApi} {P W : Type 0} (process : Process P)
    (host : Host api endpoint_api W) (sink : PluginEvent → W → W) (plugin : String)
    (root : Request) where
  -- The process answers every read, and ends once its input is closed. There is a measure of what it
  -- can still send: every frame that is read uses some of it up, and sending to it adds nothing.
  abbrev pub IsUsedUp : (P → ℕ) → Type 0
  IsUsedUp unread =
      ((p q : P) (f : Frame) → process.next p ≡ (frame f, q) → unread q < unread p)
      × ((f : Frame) (p : P) → unread (process.send f p).1 ≤ unread p)
      × ((p q : P) → process.next p ≢ (blocked, q))
      × ((p : P) → (x : Exit) × (process.exit p ≡ some x))

  module _ (unread : P → ℕ) (used_up : IsUsedUp unread) where
    -- a turn leaves at most as much
    abbrev Leaves : ℕ → Turn P W → Type 0
    Leaves n (done out p r w) = Unit
    Leaves n (again out p w) = unread p ≤ n

    after_send-Leaves :
        (f : Frame) (s : Option String × P) (w : W) (n : ℕ)
        → unread s.1 ≤ n
        → Leaves n (after_send process host sink plugin root f s w)
    after_send-Leaves f (none, p) w n h = h
    after_send-Leaves f (some e, p) w n h = tt

    take_frame-Leaves :
        (k : FrameKind) (f : Frame) (p : P) (w : W)
        → Leaves (unread p) (take_frame process host sink plugin root k f p w)
    unfolding take_frame
    take_frame-Leaves response f p w = elim (Bool-cases (f.id == "root")) [
      | inl e ↦ rw e tt
      | inr e ↦ rw e tt
    ]
    take_frame-Leaves request f p w = elim (Bool-cases (f.target == "host")) [
      | inl e ↦ rw e (after_send-Leaves _ (process.send _ p) _ (unread p) (used_up.1 _ p))
      | inr e ↦ rw e (used_up.1 (bad_target process host sink plugin root f) p)
    ]
    take_frame-Leaves event f p w =
        elim (Bool-cases (not (f.target == "") && not (f.target == "host"))) [
          | inl e ↦ rw e tt
          | inr e ↦ rw e (omega arith)
        ]
    take_frame-Leaves other f p w = elim (Bool-cases (f.kind == "")) [
      | inl e ↦ rw e tt
      | inr e ↦ rw e tt
    ]

    take_received-Leaves :
        (f : Frame) (p : P) (w : W)
        → Leaves (unread p) (take_received process host sink plugin root f p w)
    unfolding take_received
    take_received-Leaves f p w = elim (Bool-cases (f.protocol == version)) [
      | inl e ↦ rw e (take_frame-Leaves (frame_kind f) f p w)
      | inr e ↦ rw e tt
    ]

    abbrev Ends : Option (Transcript W) → Type 0
    Ends o = (t : Transcript W) × (o ≡ some t)

    closed-Ends :
        (p : P) (build : Exit → Transcript W) → Ends (closed process host sink plugin root p build)
    closed-Ends p build = let ends = used_up.3 p in (build ends.0, rw ends.1 refl)

    after_turn-Ends :
        (rest : P → W → Option (Transcript W)) (f : Frame) (turn : Turn P W) (n : ℕ)
        → Leaves n turn
        → ((q : P) (v : W) → unread q ≤ n → Ends (rest q v))
        → Ends (after_turn process host sink plugin root rest f turn)
    after_turn-Ends rest f (done out p r w) n h k = closed-Ends p _
    after_turn-Ends rest f (again out p w) n h k =
        let later = k p w h in (noted process host sink plugin root f out later.0, rw later.1 refl)

    -- what is left before a frame is read, counted after it
    abbrev left : Received × P → ℕ
    left (frame f, p) = suc (unread p)
    left (broken e, p) = 0
    left (blocked, p) = 0

    left-next : (p : P) (m : Received × P) → process.next p ≡ m → left m ≤ unread p
    left-next p (frame f, q) h = used_up.0 p q f h
    left-next p (broken e, q) h = omega arith
    left-next p (blocked, q) h = omega arith

    rounds-Ends :
        (fuel : ℕ) (m : Received × P) (w : W) (p : P)
        → process.next p ≡ m
        → left m < fuel
        → Ends (rounds process host sink plugin root fuel m w)
    unfolding rounds
    rounds-Ends zero m w q reads h = absurd (omega arith)
    rounds-Ends (suc fuel) (blocked, p) w q reads h = absurd (used_up.2 q p reads)
    rounds-Ends (suc fuel) (broken e, p) w q reads h = closed-Ends _ _
    rounds-Ends (suc fuel) (frame f, p) w q reads h =
        after_turn-Ends (λ q v. rounds process host sink plugin root fuel (process.next q) v) f
          (take_received process host sink plugin root f p w) (unread p)
          (take_received-Leaves f p w)
          (λ q v l.
            rounds-Ends fuel (process.next q) v q refl
              (let n = left-next q (process.next q) refl in omega arith))

    after_root-Ends :
        (fuel : ℕ) (s : Option String × P) (w : W)
        → unread s.1 < fuel
        → Ends (after_root process host sink plugin root fuel s w)
    after_root-Ends fuel (some e, p) w h = closed-Ends p _
    after_root-Ends fuel (none, p) w h =
        rounds-Ends fuel (process.next p) w p refl
          (let n = left-next p (process.next p) refl in omega arith)

    with_root-Ends :
        (fuel : ℕ) (m : Outcome Frame) (p : P) (w : W)
        → unread p < fuel
        → Ends (with_root process host sink plugin root fuel m p w)
    with_root-Ends fuel (err e) p w h = closed-Ends p _
    with_root-Ends fuel (ok f) p w h =
        after_root-Ends fuel (process.send f p) w (let n = used_up.1 f p in omega arith)

    -- If a process answers every read, ends once its input is closed, and there is a measure of what
    -- it can still send, then with fuel above the measure the loop ends with a return value, and what
    -- it received, sent and returned is a conversation of the protocol.
    pub invoke_request_v2-ends :
        (fuel : ℕ) (p : P) (encoded : Outcome String) (w : W)
        → unread p < fuel
        → (t : Transcript W) × (invoke_request_v2 process host sink plugin root fuel
              (ok p)
              encoded
              w
            ≡ some t)
          × Obeys
              (UnsentTo process host sink plugin root)
              (CutOff process host sink plugin root (ok p) encoded)
              t.received
              t.sent
              t.exit
              t.result
    unfolding invoke_request_v2
    invoke_request_v2-ends fuel p encoded w h =
        let run = with_root-Ends fuel _ p w h in
        (
          run.0,
          run.1,
          invoke_request_v2-Obeys process host sink plugin root fuel (ok p) encoded w run.0 run.1,
        )
