-- ===== src/Runner/Frames/World.antt =====
-- What a whole conversation does to the world outside of the program, invokeRequestV2 in
-- runtime/runner.go: what every request and event keeps is kept.
use mathlib.Core.Path.{subst}
use fluxplane_dex.Prelude.{
  ℕ, zero, suc, String, ◌≡◌, refl, ◌∙◌, false, not, ◌&&◌, Option, none, some, List, ◌==◌,
  Bool-cases, Option-cases, inl, inr, trim_space,
}
use fluxplane_dex.Prelude.Int.{ℤ}
use fluxplane_dex.Prelude.Outcome.{Outcome, ok, err}
use fluxplane_dex.Endpoints.{EndpointApi}
use fluxplane_dex.Grants.{CapabilityGrant, is_blank}
use fluxplane_dex.Grants.Release.{SecretApi}
use fluxplane_dex.Core.{PluginManifest}
use fluxplane_dex.Protocol.{version, Request, Frame, OperationCall}
use fluxplane_dex.Runner.Host.{Host}
use fluxplane_dex.Runner.Scope.Laws.{may_use}
use fluxplane_dex.Runner.Requests.{handle_host_request}
use fluxplane_dex.Runner.Requests.Laws.{Demand, nothing, unreadable, capability}
use fluxplane_dex.Runner.Requests.Granted.{is_declared, granting, handle_host_request-declared}
use fluxplane_dex.Runner.Frames.{
  Received, frame, broken, blocked, Process, PluginEvent, FrameKind, response, request, event,
  other, frame_kind, Turn, done, again, Transcript, after_send, take_frame, take_received,
  after_turn, after_root, with_root, rounds, invoke_request_v2,
}
use fluxplane_dex.Runner.Frames.Conversation.{Meets, closed-Meets}

module _ {api : SecretApi} {endpoint_api : EndpointApi} {P W : Type 0} (process : Process P)
    (host : Host api endpoint_api W) (sink : PluginEvent → W → W) (plugin : String) (root : Request)
    (Q : W → Type 0)
    (keeps : (f : Frame) (w : W)
      → Q w
      → Q (handle_host_request host plugin root.instance_name root.grant f w).1)
    (hears : (e : PluginEvent) (w : W) → Q w → Q (sink e w)) where
  abbrev Keeps : Turn P W → Type 0
  Keeps (done out p r w) = Q w
  Keeps (again out p w) = Q w

  after_send-Keeps :
      (f : Frame) (s : Option String × P) (w : W)
      → Q w
      → Keeps (after_send process host sink plugin root f s w)
  after_send-Keeps f (none, p) w h = h
  after_send-Keeps f (some e, p) w h = h

  take_frame-Keeps :
      (k : FrameKind) (f : Frame) (p : P) (w : W)
      → Q w
      → Keeps (take_frame process host sink plugin root k f p w)
  unfolding take_frame
  take_frame-Keeps response f p w h = elim (Bool-cases (f.id == "root")) [
    | inl e ↦ rw e h
    | inr e ↦ rw e h
  ]
  take_frame-Keeps request f p w h = elim (Bool-cases (f.target == "host")) [
    | inl e ↦ rw e (after_send-Keeps _ (process.send _ p) _ (keeps f w h))
    | inr e ↦ rw e h
  ]
  take_frame-Keeps event f p w h =
      elim (Bool-cases (not (f.target == "") && not (f.target == "host"))) [
        | inl e ↦ rw e h
        | inr e ↦ rw e (hears _ w h)
      ]
  take_frame-Keeps other f p w h = elim (Bool-cases (f.kind == "")) [
    | inl e ↦ rw e h
    | inr e ↦ rw e h
  ]

  take_received-Keeps :
      (f : Frame) (p : P) (w : W) → Q w → Keeps (take_received process host sink plugin root f p w)
  unfolding take_received
  take_received-Keeps f p w h = elim (Bool-cases (f.protocol == version)) [
    | inl e ↦ rw e (take_frame-Keeps (frame_kind f) f p w h)
    | inr e ↦ rw e h
  ]

  abbrev IsKept : Transcript W → Type 0
  IsKept t = Q t.world

  after_turn-IsKept :
      (rest : P → W → Option (Transcript W)) (f : Frame) (turn : Turn P W)
      → ((p : P) (w : W) → Q w → Meets IsKept (rest p w))
      → Keeps turn
      → Meets IsKept (after_turn process host sink plugin root rest f turn)
  after_turn-IsKept rest f (done out p r w) h k = closed-Meets IsKept _ (process.exit p) (λ x. k)
  after_turn-IsKept rest f (again out p w) h k = elim (Option-cases (rest p w)) [
    | inl n ↦ rw n tt
    | inr s ↦ rw s.1 (subst (Meets IsKept) s.1 (h p w k))
  ]

  rounds-IsKept :
      (fuel : ℕ) (m : Received × P) (w : W)
      → Q w
      → Meets IsKept (rounds process host sink plugin root fuel m w)
  unfolding rounds
  rounds-IsKept zero m w h = tt
  rounds-IsKept (suc fuel) (blocked, p) w h = tt
  rounds-IsKept (suc fuel) (broken e, p) w h = closed-Meets IsKept _ (process.exit _) (λ x. h)
  rounds-IsKept (suc fuel) (frame f, p) w h =
      after_turn-IsKept _ f _ (λ q v. rounds-IsKept fuel (process.next q) v)
        (take_received-Keeps f p w h)

  after_root-IsKept :
      (fuel : ℕ) (s : Option String × P) (w : W)
      → Q w
      → Meets IsKept (after_root process host sink plugin root fuel s w)
  after_root-IsKept fuel (some e, p) w h = closed-Meets IsKept _ (process.exit p) (λ x. h)
  after_root-IsKept fuel (none, p) w h = rounds-IsKept fuel (process.next p) w h

  with_root-IsKept :
      (fuel : ℕ) (m : Outcome Frame) (p : P) (w : W)
      → Q w
      → Meets IsKept (with_root process host sink plugin root fuel m p w)
  with_root-IsKept fuel (err e) p w h = closed-Meets IsKept _ (process.exit p) (λ x. h)
  with_root-IsKept fuel (ok f) p w h = after_root-IsKept fuel (process.send f p) w h

  invoke-IsKept :
      (fuel : ℕ) (started : Outcome P) (encoded : Outcome String) (w : W)
      → Q w
      → Meets IsKept (invoke_request_v2 process host sink plugin root fuel started encoded w)
  unfolding invoke_request_v2
  invoke-IsKept fuel (err e) encoded w h = h
  invoke-IsKept fuel (ok p) encoded w h = with_root-IsKept fuel _ p w h

is_declared-none :
    (manifest : PluginManifest) (calls : List OperationCall)
    → ((c : CapabilityGrant) → may_use manifest calls c ≡ false)
    → (d : Demand) → is_declared manifest calls d ≡ false
is_declared-none manifest calls h nothing = refl
is_declared-none manifest calls h unreadable = refl
is_declared-none manifest calls h (capability c) = h c

-- If the plugin and the token are not blank, the events of the plugin change nothing, and no called
-- operation of the manifest declares access to anything, then a whole conversation under the grant
-- of the invocation leaves the world outside of the program as it was, whatever the plugin sends.
pub invoke_request_v2-declared :
    {api : SecretApi} {endpoint_api : EndpointApi} {P W : Type 0} (process : Process P)
    (host : Host api endpoint_api W) (manifest : PluginManifest) (calls : List OperationCall)
    (now : ℕ) (plugin instance_name : String) (ttl : ℤ) (root : Request)
    (sink : PluginEvent → W → W) (fuel : ℕ) (started : Outcome P) (encoded : Outcome String) (w : W)
    (t : Transcript W)
    → is_blank (trim_space plugin) ≡ false
    → is_blank (trim_space root.grant) ≡ false
    → ((c : CapabilityGrant) → may_use manifest calls c ≡ false)
    → ((e : PluginEvent) (w : W) → sink e w ≡ w)
    → invoke_request_v2 process
        (granting host manifest calls now root.grant plugin instance_name ttl)
        sink
        plugin
        root
        fuel
        started
        encoded
        w
      ≡ some t
    → t.world ≡ w
invoke_request_v2-declared process host manifest calls now plugin instance_name ttl root sink fuel
      started encoded w t named held undeclared silent h =
    let granted = granting host manifest calls now root.grant plugin instance_name ttl in
    subst (Meets (λ u. u.world ≡ w)) h (
      invoke-IsKept process granted sink plugin root (λ v. v ≡ w)
        (λ f v k.
          handle_host_request-declared host manifest calls now root.grant plugin instance_name ttl
            named held plugin root.instance_name f v (is_declared-none manifest calls undeclared _)
          ∙ k)
        (λ e v k. silent e v ∙ k) fuel started encoded w refl)
