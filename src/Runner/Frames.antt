-- ===== src/Runner/Frames.antt =====
-- The conversation with a plugin's process, invokeRequestV2 in runtime/runner.go. The process is a
-- machine on states `P` that answers the host's reads, writes and its wait, or leaves a read or the
-- wait without an answer for ever; what the plugin sends may depend on what it was sent. A write that
-- is never taken is one after which nothing is answered.
use fluxplane_dex.Prelude.{
  ℕ, zero, suc, String, Bool, false, true, not, ◌&&◌, ◌||◌, Option, none, some, List, [], ◌∷◌, ◌==◌,
  if◌then◌else◌, trim_space, append,
}
pub mod Conversation
pub mod Ends
pub mod World
use mathlib.Core.Option
use fluxplane_dex.Prelude.Outcome.{Outcome, ok, err}
use fluxplane_dex.Endpoints.{EndpointApi}
use fluxplane_dex.Grants.Release.{SecretApi}
use fluxplane_dex.Protocol.{
  version, Request, Response, Error, Frame, frame_request, frame_response, frame_event, target_host,
  target_plugin, new_request_frame, new_response_frame, frame_response_error,
}
use fluxplane_dex.Runner.Host.{Host}
use fluxplane_dex.Runner.Requests.{handle_host_request}

-- what dec.Decode gives: a frame, or its error; or it does not return
pub data Received : Type 0 where
  frame : Frame → Received
  broken : String → Received
  blocked : Received

-- what is known once cmd.Wait has returned
pub record Exit : Type 0 where
  pub wait_error : Option String
  pub stderr : String
  pub stderr_truncated : Bool

pub record Process (P : Type 0) : Type 0 where
  pub next : P → Received × P
  pub send : Frame → P → Option String × P
  pub stdout_exceeded : P → Bool
  pub stderr_truncated : P → Bool
  pub killed : P → P
  -- cmd.Wait after the input is closed; none if it does not return
  pub exit : P → Option Exit

pub record PluginEvent : Type 0 where
  pub plugin : String
  pub instance_name : String
  pub command : String
  pub event : String
  pub payload : String

-- The response and the error that a Go function returns.
abbrev pub Result : Type 0
Result = Response × Option String

abbrev blank_response : Response
blank_response = record { protocol = ""; is_ok = false; result = ""; error = none }

abbrev pub failed : String → Result
failed message = (blank_response, some message)

-- the error for a plugin, "run plugin %s: %s"
abbrev pub run_message : String → String → String
run_message plugin message = append "run plugin " (append plugin (append ": " message))

abbrev run_error : String → String → Result
run_error plugin message = failed (run_message plugin message)

-- the first text that is not blank
abbrev pub or_text : String → String → String
or_text message otherwise = if message == "" then otherwise else message

abbrev wait_message : Option String → String → String
wait_message none otherwise = otherwise
wait_message (some e) otherwise = e

-- the return after dec.Decode has failed
unfoldable pub decode_failure : String → Bool → Bool → String → Exit → Result
decode_failure plugin exceeded truncated e exit =
    if exceeded
    then run_error plugin "plugin stdout exceeded 4194304 bytes"
    else if truncated
    then run_error plugin "plugin stderr exceeded 4194304 bytes"
    else run_error plugin
        (or_text (trim_space exit.stderr) (or_text (wait_message exit.wait_error "") e))

-- the error of a response that is not OK
abbrev error_message : Option Error → Option String
error_message none = none
error_message (some e) = some e.message

abbrev pub frame_result : Frame → Response
frame_result f = record { protocol = version; is_ok = f.is_ok; result = f.result; error = f.error }

-- the return for a process that failed although its response is OK
abbrev with_wait : String → Frame → Exit → Option String → Result
with_wait plugin f exit none = (frame_result f, if f.is_ok then none else error_message f.error)
with_wait plugin f exit (some e) =
    if f.is_ok
    then run_error plugin (or_text (trim_space exit.stderr) e)
    else (frame_result f, error_message f.error)

-- the return for a response to the root request
unfoldable pub root_result : String → Frame → Exit → Result
root_result plugin f exit =
    if exit.stderr_truncated
    then run_error plugin "plugin stderr exceeded 4194304 bytes"
    else with_wait plugin f exit exit.wait_error

-- the kinds of frames
pub data FrameKind : Type 0 where
  response : FrameKind
  request : FrameKind
  event : FrameKind
  other : FrameKind

unfoldable pub frame_kind : Frame → FrameKind
frame_kind f =
    if f.kind == frame_response
    then response
    else if f.kind == frame_request
    then request
    else if f.kind == frame_event
    then event
    else other

-- One round of the loop: the process that is waited for and the return after that, or the state of the
-- next round; with it the frame that the host hands to the encoder, if it does.
pub data Turn (P W : Type 0) : Type 0 where
  done : Option Frame → P → (Exit → Result) → W → Turn P W
  again : Option Frame → P → W → Turn P W

-- What was received and handed to the encoder, how the process ended if it was started, the return
-- value, and the world afterwards.
pub record Transcript (W : Type 0) : Type 0 where
  pub received : List Frame
  pub sent : List Frame
  pub exit : Option Exit
  pub result : Result
  pub world : W

abbrev pub with_sent : Option Frame → List Frame → List Frame
with_sent none fs = fs
with_sent (some f) fs = f ∷ fs

module _ {api : SecretApi} {endpoint_api : EndpointApi} {P W : Type 0} (process : Process P)
    (host : Host api endpoint_api W) (sink : PluginEvent → W → W) (plugin : String)
    (root : Request) where
  -- after the encoder has returned
  abbrev pub after_send : Frame → Option String × P → W → Turn P W
  after_send f (none, p) w = again (some f) p w
  after_send f (some e, p) w = done (some f) p (λ x. failed e) w

  abbrev pub answer : Frame → P → Response × W → Turn P W
  answer f p (resp, w) =
      after_send (new_response_frame f.id resp) (process.send (new_response_frame f.id resp) p) w

  -- handlePluginEvent
  abbrev pub plugin_event : Frame → PluginEvent
  plugin_event f = record {
    plugin = plugin;
    instance_name = root.instance_name;
    command = root.command;
    event = trim_space f.command;
    payload = f.payload;
  }

  abbrev pub bad_target : Frame → Frame
  bad_target f = frame_response_error f.id "bad_request" "plugin may only request host target"

  -- the switch on the type of a frame of the protocol
  unfoldable pub take_frame : FrameKind → Frame → P → W → Turn P W
  unfolding root_result new_response_frame frame_response_error handle_host_request
  take_frame response f p w =
      if not (f.id == "root")
      then done none p (λ x. failed (append "unexpected plugin response frame " f.id)) w
      else done none p (root_result plugin f) w
  take_frame request f p w =
      if not (f.target == target_host)
      then again (some (bad_target f)) (process.send (bad_target f) p).1 w
      else answer f p (handle_host_request host plugin root.instance_name root.grant f w)
  take_frame event f p w =
      if not (f.target == "") && not (f.target == target_host)
      then done none p (λ x. failed "plugin event may only target host") w
      else again none p (sink (plugin_event f) w)
  take_frame other f p w =
      if f.kind == ""
      then done none p
          (λ x. failed (
            append "plugin "
              (append plugin " returned an unframed response on v2 framed protocol")))
          w
      else done none p (λ x. failed (append "unexpected plugin frame type " f.kind)) w

  unfoldable pub take_received : Frame → P → W → Turn P W
  unfolding take_frame frame_kind
  take_received f p w =
      if not (f.protocol == version)
      then done none p (λ x. failed (append "plugin protocol mismatch: " f.protocol)) w
      else take_frame (frame_kind f) f p w

  -- a transcript with the frames of an earlier round in front
  abbrev pub noted : Frame → Option Frame → Transcript W → Transcript W
  noted f out t = record t { received = f ∷ t.received; sent = with_sent out t.sent }

  abbrev pub ended : List Frame → List Frame → Result → W → Exit → Transcript W
  ended received sent result w x = record {
    received = received;
    sent = sent;
    exit = some x;
    result = result;
    world = w;
  }

  -- a return after cmd.Wait, if that returns
  abbrev pub closed : P → (Exit → Transcript W) → Option (Transcript W)
  closed p build = Option.map build (process.exit p)

  abbrev pub after_turn : (P → W → Option (Transcript W)) → Frame → Turn P W → Option (Transcript W)
  after_turn rest f (done out p r w) = closed p (λ x. ended (f ∷ []) (with_sent out []) (r x) w x)
  after_turn rest f (again out p w) = Option.map (noted f out) (rest p w)

  -- a process that has printed too much is killed before the wait
  abbrev pub after_broken : Bool → Bool → String → P → W → Option (Transcript W)
  after_broken exceeded truncated e p w =
      closed (if exceeded || truncated then process.killed p else p)
        (λ x. ended [] [] (decode_failure plugin exceeded truncated e x) w x)

  -- the loop, with fuel, from what was received
  unfoldable pub rounds : ℕ → Received × P → W → Option (Transcript W)
  unfolding decode_failure take_received
  rounds zero received w = none
  rounds (suc fuel) (blocked, p) w = none
  rounds (suc fuel) (broken e, p) w =
      after_broken (process.stdout_exceeded p) (process.stderr_truncated p) e p w
  rounds (suc fuel) (frame f, p) w =
      after_turn (λ q v. rounds fuel (process.next q) v) f (take_received f p w)

  abbrev pub after_root : ℕ → Option String × P → W → Option (Transcript W)
  after_root fuel (some e, p) w = closed p (ended [] [] (failed e) w)
  after_root fuel (none, p) w = rounds fuel (process.next p) w

  abbrev pub with_root : ℕ → Outcome Frame → P → W → Option (Transcript W)
  with_root fuel (err e) p w = closed p (ended [] [] (failed e) w)
  with_root fuel (ok f) p w = after_root fuel (process.send f p) w

  -- `started` is the process, or the error of starting it; `encoded` is the text of the request
  unfoldable pub invoke_request_v2 : ℕ → Outcome P → Outcome String → W → Option (Transcript W)
  unfolding rounds new_request_frame
  invoke_request_v2 fuel (err e) encoded w =
      some (record { received = []; sent = []; exit = none; result = failed e; world = w })
  invoke_request_v2 fuel (ok p) encoded w =
      with_root fuel (new_request_frame "root" target_plugin root.command encoded) p w
