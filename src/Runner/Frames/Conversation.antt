-- ===== src/Runner/Frames/Conversation.antt =====
-- The order of frames that invokeRequestV2 of runtime/runner.go keeps, as a relation on what was
-- received, what was sent and what is returned, and that the loop keeps to it.
use mathlib.Core.Option
use mathlib.Core.Path.{subst}
use fluxplane_dex.Prelude.{
  ℕ, zero, suc, String, ◌≡◌, ◌≢◌, refl, ap, sym, ◌∙◌, ◌||◌, ◌⊎◌, inl, inr, Bool, false, true, not,
  ◌&&◌, Option, none, some, List, [], ◌∷◌, ◌==◌, trim_space, arith, Bool-cases, Option-cases,
  eq_iff, if◌then◌else◌,
}
use fluxplane_dex.Prelude.Outcome.{Outcome, ok, err}
use fluxplane_dex.Endpoints.{EndpointApi}
use fluxplane_dex.Grants.Release.{SecretApi}
use fluxplane_dex.Protocol.{
  version, Request, Response, Error, Frame, fail, new_request_frame, target_plugin,
  new_response_frame, frame_response_error,
}
use fluxplane_dex.Runner.Host.{Host}
use fluxplane_dex.Runner.Requests.{handle_host_request}
use fluxplane_dex.Runner.Frames.{
  Received, frame, broken, blocked, Process, PluginEvent, Exit, Result, failed, root_result,
  error_message, run_message, or_text, FrameKind, response, request, event, other, frame_kind, Turn,
  done, again, Transcript, with_sent, after_send, bad_target, take_frame, take_received, after_turn,
  after_root, with_root, rounds, invoke_request_v2, decode_failure,
}

abbrev pub is_frame : String → Frame → Bool
is_frame kind f = f.protocol == version && f.kind == kind

-- A response of the protocol with the id of the request.
abbrev pub IsAnswer : Frame → Frame → Type 0
IsAnswer f a = (is_frame "request" f ≡ true) × (is_frame "response" a ≡ true) × (a.id ≡ f.id)

-- the frame that ends a conversation
abbrev pub is_root_response : Frame → Bool
is_root_response f = is_frame "response" f && f.id == "root"

-- the error message of a response, if it is not OK and has one
abbrev pub message : Option Error → Option String
message none = none
message (some e) = some e.message

-- the process ended well enough for the response of a frame to be returned
abbrev pub IsClean : Frame → Exit → Type 0
IsClean f x = (x.stderr_truncated ≡ false) × ((x.wait_error ≡ none) ⊎ (f.is_ok ≡ false))

-- it did not: it printed too much, or it failed although the response says OK
abbrev pub IsUnclean : Frame → Exit → Type 0
IsUnclean f x = (x.stderr_truncated ≡ true) ⊎ ((x.wait_error ≢ none) × (f.is_ok ≡ true))

-- an event that is for the host
abbrev pub is_event : Frame → Bool
is_event f = is_frame "event" f && (f.target == "" || f.target == "host")

-- a frame that the host takes
abbrev pub is_taken : Frame → Bool
is_taken f = is_frame "request" f || (is_root_response f || is_event f)

-- The conversations that a host may hold: what it receives, what it sends, how the process ended and
-- what it returns. `Unsent` says which errors the sending of a frame may have, and `IsCut` which errors
-- there may be where nothing more is read.
pub data Obeys (Unsent : Frame → String → Type 0) (IsCut : String → Type 0)
    : List Frame → List Frame → Option Exit → Result → Type 0 where
  cut_off : (x : Option Exit) (m : String) → IsCut m → Obeys Unsent IsCut [] [] x (failed m)
  finished :
      (f : Frame) (x : Exit)
      → is_root_response f ≡ true
      → IsClean f x
      → Obeys Unsent IsCut (f ∷ []) [] (some x) (
        record { protocol = version; is_ok = f.is_ok; result = f.result; error = f.error },
        if f.is_ok then none else message f.error,
      )
  unclean :
      (f : Frame) (x : Exit) (m : String)
      → is_root_response f ≡ true
      → IsUnclean f x
      → Obeys Unsent IsCut (f ∷ []) [] (some x) (failed m)
  refused :
      (f : Frame) (x : Option Exit) (m : String)
      → is_taken f ≡ false
      → Obeys Unsent IsCut (f ∷ []) [] x (failed m)
  unsent :
      (f a : Frame) (x : Option Exit) (m : String)
      → IsAnswer f a
      → Unsent a m
      → Obeys Unsent IsCut (f ∷ []) (a ∷ []) x (failed m)
  answered :
      (f a : Frame) {rs ss : List Frame} {x : Option Exit} {r : Result}
      → IsAnswer f a
      → Obeys Unsent IsCut rs ss x r
      → Obeys Unsent IsCut (f ∷ rs) (a ∷ ss) x r
  heard :
      (f : Frame) {rs ss : List Frame} {x : Option Exit} {r : Result}
      → is_event f ≡ true
      → Obeys Unsent IsCut rs ss x r
      → Obeys Unsent IsCut (f ∷ rs) ss x r

-- what a round has to leave to the next one
abbrev Continues :
    {P W : Type 0} → (Frame → String → Type 0) → (String → Type 0) → Frame → Turn P W → Type 0
Continues U C f (done out p r w) = (x : Exit) → Obeys U C (f ∷ []) (with_sent out []) (some x) (r x)
Continues U C f (again out p w) =
    (rs ss : List Frame) (x : Option Exit) (r : Result)
    → Obeys U C rs ss x r
    → Obeys U C (f ∷ rs) (with_sent out ss) x r

abbrev pub Meets : {W : Type 0} → (Transcript W → Type 0) → Option (Transcript W) → Type 0
Meets Q none = Unit
Meets Q (some t) = Q t

pub closed-Meets :
    {W : Type 0} (Q : Transcript W → Type 0) (build : Exit → Transcript W) (o : Option Exit)
    → ((x : Exit) → Q (build x))
    → Meets Q (Option.map build o)
closed-Meets Q build none h = tt
closed-Meets Q build (some x) h = h x

abbrev pub ObeysIn :
    {W : Type 0} → (Frame → String → Type 0) → (String → Type 0) → Transcript W → Type 0
ObeysIn U C t = Obeys U C t.received t.sent t.exit t.result

-- what the kind says of the frame
abbrev is_kind : FrameKind → Frame → Bool
is_kind response f = is_frame "response" f
is_kind request f = is_frame "request" f
is_kind event f = is_frame "event" f
is_kind other f = not (is_taken f)

frame_kind-is_kind : (f : Frame) → f.protocol ≡ version → is_kind (frame_kind f) f ≡ true
unfolding frame_kind
frame_kind-is_kind f h = ground (arith, eq_iff f.protocol version)

-- a frame has one kind
pub is_frame-other :
    (k j : String) (f : Frame) → (k == j) ≡ false → is_frame k f ≡ true → is_frame j f ≡ false
is_frame-other k j f ne h = ground (arith, eq_iff f.kind k, eq_iff f.kind j, eq_iff k j)

error_message-message : (o : Option Error) → error_message o ≡ message o
error_message-message none = refl
error_message-message (some e) = refl

unclean-Obeys :
    {U : Frame → String → Type 0} {C : String → Type 0} (f : Frame) (x : Exit) (m : String)
    (r : Result)
    → r ≡ failed m
    → is_root_response f ≡ true
    → IsUnclean f x
    → Obeys U C (f ∷ []) [] (some x) r
unclean-Obeys {U} {C} f x m r e h u =
    subst (λ q. Obeys U C (f ∷ []) [] (some x) q) (sym e) (unclean f x m h u)

-- the return of a root response
abbrev returned : Frame → Result
returned f = (
  record { protocol = version; is_ok = f.is_ok; result = f.result; error = f.error },
  if f.is_ok then none else message f.error,
)

finished-Obeys :
    {U : Frame → String → Type 0} {C : String → Type 0} (f : Frame) (x : Exit) (r : Result)
    → r ≡ returned f
    → is_root_response f ≡ true
    → IsClean f x
    → Obeys U C (f ∷ []) [] (some x) r
finished-Obeys {U} {C} f x r e h c =
    subst (λ q. Obeys U C (f ∷ []) [] (some x) q) (sym e) (finished f x h c)

root_result-Obeys :
    {U : Frame → String → Type 0} {C : String → Type 0} (plugin : String) (f : Frame) (x : Exit)
    → is_root_response f ≡ true
    → Obeys U C (f ∷ []) [] (some x) (root_result plugin f x)
unfolding root_result
root_result-Obeys plugin f x h =
    let same = error_message-message f.error in
    elim (Bool-cases x.stderr_truncated) [
      | inl t ↦
          unclean-Obeys f x (run_message plugin "plugin stderr exceeded 4194304 bytes") _
            (ground arith) h (inl t)
      | inr t ↦ elim (Option-cases x.wait_error) [
        | inl n ↦ finished-Obeys f x _ (ground (arith, same)) h (t, inl n)
        | inr (e, s) ↦ elim (Bool-cases f.is_ok) [
          | inl o ↦
              unclean-Obeys f x (run_message plugin (or_text (trim_space x.stderr) e)) _
                (ground arith) h (inr (λ n. let clash = sym s ∙ n in cc, o))
          | inr o ↦ finished-Obeys f x _ (ground (arith, same)) h (t, inr o)
        ]
      ]
    ]

decode_failure-Obeys :
    {U : Frame → String → Type 0} {C : String → Type 0} (plugin : String)
    (exceeded truncated : Bool) (e : String) (x : Exit)
    → ((m : String) → C m)
    → Obeys U C [] [] (some x) (decode_failure plugin exceeded truncated e x)
unfolding decode_failure
decode_failure-Obeys plugin true truncated e x c = cut_off _ _ (c _)
decode_failure-Obeys plugin false true e x c = cut_off _ _ (c _)
decode_failure-Obeys plugin false false e x c = cut_off _ _ (c _)

module _ {api : SecretApi} {endpoint_api : EndpointApi} {P W : Type 0} (process : Process P)
    (host : Host api endpoint_api W) (sink : PluginEvent → W → W) (plugin : String)
    (root : Request) where
  -- the errors that the process gives for a frame
  abbrev pub UnsentTo : Frame → String → Type 0
  UnsentTo f m = (p : P) × ((process.send f p).0 ≡ some m)

  -- Why nothing more is read: the process was not started, the request was not encoded or not sent,
  -- or the process gave something that cannot be read.
  pub data CutOff (started : Outcome P) (encoded : Outcome String) (m : String) : Type 0 where
    unstarted : started ≡ err m → CutOff started encoded m
    unencoded :
        new_request_frame "root" target_plugin root.command encoded ≡ err m
        → CutOff started encoded m
    root_unsent : (f : Frame) → UnsentTo f m → CutOff started encoded m
    unread : (p q : P) (e : String) → process.next p ≡ (broken e, q) → CutOff started encoded m

  IsAnswer-response :
      (f : Frame) (x : Response)
      → is_frame "request" f ≡ true
      → IsAnswer f (new_response_frame f.id x)
  unfolding new_response_frame
  IsAnswer-response f x h = (h, refl, refl)

  module _ (started : Outcome P) (encoded : Outcome String) where
    abbrev C : String → Type 0
    C = CutOff started encoded

    sent-Continues :
        (f a : Frame) (s : Option String × P) (w : W)
        → IsAnswer f a
        → (p : P) → process.send a p ≡ s
        → Continues UnsentTo C f (after_send process host sink plugin root a s w)
    sent-Continues f a (none, q) w h p sends = λ rs ss x r o. answered f a h o
    sent-Continues f a (some e, q) w h p sends =
        λ x. unsent f a (some x) e h (p, ap (λ z. z.0) sends)

    take_frame-Continues :
        (k : FrameKind) (f : Frame) (p : P) (w : W)
        → is_kind k f ≡ true
        → Continues UnsentTo C f (take_frame process host sink plugin root k f p w)
    unfolding take_frame frame_response_error
    take_frame-Continues response f p w h = elim (Bool-cases (f.id == "root")) [
      | inl e ↦ rw e (λ x. root_result-Obeys plugin f x (ground arith))
      | inr e ↦
          let not_request = is_frame-other "response" "request" f refl h in
          let not_event = is_frame-other "response" "event" f refl h in
          rw e (λ x. refused f (some x) _ (ground arith))
    ]
    take_frame-Continues request f p w h = elim (Bool-cases (f.target == "host")) [
      | inl e ↦ rw e (
          sent-Continues f _ _ (handle_host_request host plugin root.instance_name root.grant f w).1
            (IsAnswer-response f
              (handle_host_request host plugin root.instance_name root.grant f w).0 h)
            p refl)
      | inr e ↦ rw e (λ rs ss x r o.
          answered f (bad_target process host sink plugin root f)
            (IsAnswer-response f (fail "bad_request" "plugin may only request host target") h) o)
    ]
    take_frame-Continues event f p w h =
        elim (Bool-cases (not (f.target == "") && not (f.target == "host"))) [
          | inl e ↦
              let not_request = is_frame-other "event" "request" f refl h in
              let not_response = is_frame-other "event" "response" f refl h in
              rw e (λ x. refused f (some x) _ (ground arith))
          | inr e ↦ rw e (λ rs ss x r o. heard f (ground arith) o)
        ]
    take_frame-Continues other f p w h = elim (Bool-cases (f.kind == "")) [
      | inl e ↦ rw e (λ x. refused f (some x) _ (ground arith))
      | inr e ↦ rw e (λ x. refused f (some x) _ (ground arith))
    ]

    take_received-Continues :
        (f : Frame) (p : P) (w : W)
        → Continues UnsentTo C f (take_received process host sink plugin root f p w)
    unfolding take_received
    take_received-Continues f p w = elim (Bool-cases (f.protocol == version)) [
      | inl e ↦ rw e (
          take_frame-Continues (frame_kind f) f p w
            (frame_kind-is_kind f ((eq_iff f.protocol version).0 e)))
      | inr e ↦ rw e (λ x. refused f (some x) _ (ground arith))
    ]

    after_turn-Meets :
        (rest : P → W → Option (Transcript W)) (f : Frame) (turn : Turn P W)
        → ((p : P) (w : W) → Meets (ObeysIn UnsentTo C) (rest p w))
        → Continues UnsentTo C f turn
        → Meets (ObeysIn UnsentTo C) (after_turn process host sink plugin root rest f turn)
    after_turn-Meets rest f (done out p r w) h c =
        closed-Meets (ObeysIn UnsentTo C) _ (process.exit p) c
    after_turn-Meets rest f (again out p w) h c = elim (Option-cases (rest p w)) [
      | inl n ↦ rw n tt
      | inr s ↦ rw s.1 (
          c s.0.received s.0.sent s.0.exit s.0.result
            (subst (Meets (ObeysIn UnsentTo C)) s.1 (h p w)))
    ]

    rounds-Meets :
        (fuel : ℕ) (received : Received × P) (w : W)
        → (q : P) → process.next q ≡ received
        → Meets (ObeysIn UnsentTo C) (rounds process host sink plugin root fuel received w)
    unfolding rounds
    rounds-Meets zero received w q reads = tt
    rounds-Meets (suc fuel) (blocked, p) w q reads = tt
    rounds-Meets (suc fuel) (broken e, p) w q reads =
        closed-Meets (ObeysIn UnsentTo C) _ (process.exit _) (λ x.
          decode_failure-Obeys plugin (process.stdout_exceeded p) (process.stderr_truncated p) e x
            (λ m. unread q p e reads))
    rounds-Meets (suc fuel) (frame f, p) w q reads =
        after_turn-Meets _ f _ (λ p v. rounds-Meets fuel (process.next p) v p refl)
          (take_received-Continues f p w)

    after_root-Meets :
        (fuel : ℕ) (s : Option String × P) (w : W)
        → (f : Frame) (q : P) → process.send f q ≡ s
        → Meets (ObeysIn UnsentTo C) (after_root process host sink plugin root fuel s w)
    after_root-Meets fuel (some e, p) w f q sends =
        closed-Meets (ObeysIn UnsentTo C) _ (process.exit p)
          (λ x. cut_off (some x) e (root_unsent f (q, ap (λ z. z.0) sends)))
    after_root-Meets fuel (none, p) w f q sends = rounds-Meets fuel (process.next p) w p refl

    with_root-Meets :
        (fuel : ℕ) (m : Outcome Frame) (p : P) (w : W)
        → new_request_frame "root" target_plugin root.command encoded ≡ m
        → Meets (ObeysIn UnsentTo C) (with_root process host sink plugin root fuel m p w)
    with_root-Meets fuel (err e) p w made =
        closed-Meets (ObeysIn UnsentTo C) _ (process.exit p)
          (λ x. cut_off (some x) e (unencoded made))
    with_root-Meets fuel (ok f) p w made = after_root-Meets fuel (process.send f p) w f p refl

  invoke-Meets :
      (fuel : ℕ) (started : Outcome P) (encoded : Outcome String) (w : W)
      → Meets
          (ObeysIn UnsentTo (CutOff started encoded))
          (invoke_request_v2 process host sink plugin root fuel started encoded w)
  unfolding invoke_request_v2
  invoke-Meets fuel (err e) encoded w = cut_off none e (unstarted refl)
  invoke-Meets fuel (ok p) encoded w = with_root-Meets (ok p) encoded fuel _ p w refl

  -- If the loop ends within the fuel, what it received, sent and returned is a conversation of the
  -- protocol: each request is answered once, by a response with its id, before the next frame is
  -- read; events for the host are not answered. A root response ends the conversation, with its own
  -- result, and its own error if it is not OK, unless the process printed too much to stderr, or
  -- failed though the response is OK, which are errors; a frame of another kind or target ends it
  -- with an error. It ends otherwise only with an error of a start, an encoding, a write or a read
  -- that fails.
  pub invoke_request_v2-Obeys :
      (fuel : ℕ) (started : Outcome P) (encoded : Outcome String) (w : W) (t : Transcript W)
      → invoke_request_v2 process host sink plugin root fuel started encoded w ≡ some t
      → Obeys UnsentTo (CutOff started encoded) t.received t.sent t.exit t.result
  invoke_request_v2-Obeys fuel started encoded w t h =
      subst (Meets (ObeysIn UnsentTo (CutOff started encoded))) h
        (invoke-Meets fuel started encoded w)
