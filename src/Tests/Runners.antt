-- ===== src/Tests/Runners.antt =====
-- Runs of the runner, and its properties applied.
use Prim.Native.Nat.{max}
use fluxplane_dex.Prelude.{
  ℕ, zero, suc, ◌<◌, ap, ◌⊎◌, ◌+◌, ◌≤◌, length, ◌++◌, List, String, ◌≡◌, ◌≢◌, refl, false, not,
  ◌&&◌, true, some, [], ◌∷◌, arith, strings, trim_space, eq_iff,
}
use fluxplane_dex.Prelude.Int.{pos}
use fluxplane_dex.Prelude.Outcome.{ok, is_ok}
use fluxplane_dex.Maps.{Map, get, put}
use fluxplane_dex.Grants.{CapabilityGrant, is_blank, validate_capability_grant}
use fluxplane_dex.Grants.Laws.{after_create, in_time_by_owner}
use fluxplane_dex.Core.{filesystem}
use fluxplane_dex.Protocol.{Frame, host_command}
use fluxplane_dex.Capabilities.{capability_blob_read, HttpAuthRequest}
use fluxplane_dex.Runner.Scope.{only, operation_grant_scope, by_name, contains_access}
use fluxplane_dex.Runner.Scope.Laws.{
  may_use, allows_access-none, rules, validate_capability_grant-operation,
}
use fluxplane_dex.Runner.Requests.{handle_host_request}
use fluxplane_dex.Runner.Requests.Laws.{demand}
use fluxplane_dex.Runner.Requests.Granted.{granting, is_declared, handle_host_request-declared}
use fluxplane_dex.Runner.Frames.{Transcript, frame, blocked, invoke_request_v2}
use fluxplane_dex.Runner.Frames.Conversation.{Obeys, UnsentTo, CutOff, invoke_request_v2-Obeys}
use fluxplane_dex.Runner.Frames.Ends.{IsUsedUp, invoke_request_v2-ends}
use fluxplane_dex.Runner.Frames.World.{invoke_request_v2-declared}
use fluxplane_dex.Runner.Buffers.{
  Use, by_write, by_read_from, new_buffer, write, perform, perform_all,
}
use fluxplane_dex.Runner.Buffers.Laws.{given, unlimited, perform_all-keeps}
use fluxplane_dex.Runner.Auth.{header, resolve_http_auth, resolve_http_header_purposes}
use fluxplane_dex.Runner.Auth.Laws.{resolve_http_auth-keeps}
use fluxplane_dex.Tests.Hosts.{
  World, chat, host, manifest_of, operation, calls, plugin_frame, process, root,
}

name-set : is_blank (trim_space "files") ≡ false
unfolding strings
name-set = refl

token-held : is_blank (trim_space "t") ≡ false
unfolding strings
token-held = refl

abbrev ask_http : Frame
ask_http = plugin_frame "1" "request" "host.capability.http.do"

http-undeclared :
    is_declared (manifest_of (filesystem ∷ [])) calls (
      demand
        (granting host (manifest_of (filesystem ∷ [])) calls 10 "t" "files" "default" (pos 50))
        "files"
        "default"
        "t"
        (host_command ask_http.command)
        ask_http.payload)
    ≡ false
unfolding strings host_command by_name get put contains_access
http-undeclared = refl

handle_host_request-declared_example :
    (handle_host_request
      (granting host (manifest_of (filesystem ∷ [])) calls 10 "t" "files" "default" (pos 50))
      "files"
      "default"
      "t"
      ask_http
      []).1
    ≡ []
handle_host_request-declared_example =
    handle_host_request-declared host (manifest_of (filesystem ∷ [])) calls 10 "t" "files" "default"
      (pos 50) name-set token-held "files" "default" ask_http [] http-undeclared

validate_capability_grant-operation_example :
    (let scope = operation_grant_scope (ok (manifest_of (filesystem ∷ []))) calls in
      is_ok (
        validate_capability_grant
          (after_create 10 "t" "files" "default" scope.operations scope.purposes scope.capabilities
            (pos 50)
            host.grants)
          20
          "files"
          "default"
          "t"
          (only capability_blob_read))
      ≡ in_time_by_owner 10 "t" "files" "default" scope.operations scope.purposes scope.capabilities
          (pos 50)
          host.grants
          name-set
          token-held
          20
          "files"
          "default"
        && (not (is_blank (trim_space (only capability_blob_read).name))
            && may_use (manifest_of (filesystem ∷ [])) calls (only capability_blob_read)))
validate_capability_grant-operation_example =
    validate_capability_grant-operation (manifest_of (filesystem ∷ [])) calls 10 "t" "files"
      "default" (pos 50) host.grants name-set token-held 20 "files" "default"
      (only capability_blob_read)

nothing-declared : (c : CapabilityGrant) → may_use (manifest_of []) calls c ≡ false
unfolding by_name get put strings
nothing-declared c = ground (arith, allows_access-none (operation []) c (rules (operation []) c))

talk :
    (t : Transcript World) × (invoke_request_v2 process host
        (λ e w. w)
        "files"
        root
        3
        (ok 2)
        (ok "{}")
        []
      ≡ some t)
unfolding invoke_request_v2
talk = (_, refl)

invoke_request_v2-Obeys_example :
    Obeys
      (UnsentTo process host (λ e w. w) "files" root)
      (CutOff process host (λ e w. w) "files" root (ok 2) (ok "{}"))
      talk.0.received
      talk.0.sent
      talk.0.exit
      talk.0.result
invoke_request_v2-Obeys_example =
    invoke_request_v2-Obeys process host (λ e w. w) "files" root 3 (ok 2) (ok "{}") [] talk.0 talk.1

chat-next : (p q : ℕ) (f : Frame) → chat p ≡ (frame f, q) → q < p
chat-next zero q f h = cc
chat-next (suc zero) q f h =
    let after : (chat (suc zero)).1 ≡ q = ap (λ x. x.1) h in omega (arith, after)
chat-next (suc (suc n)) q f h =
    let after : (chat (suc (suc n))).1 ≡ q = ap (λ x. x.1) h in omega (arith, after)

chat-answers : (p q : ℕ) → chat p ≢ (blocked, q)
chat-answers zero q h = cc
chat-answers (suc zero) q h = cc
chat-answers (suc (suc n)) q h = cc

chat-IsUsedUp : IsUsedUp process host (λ e w. w) "files" root (λ n. n)
chat-IsUsedUp = (chat-next, λ f p. omega arith, chat-answers, λ p. (_, refl))

invoke_request_v2-ends_example :
    (t : Transcript World) × (invoke_request_v2 process host
        (λ e w. w)
        "files"
        root
        3
        (ok 2)
        (ok "{}")
        []
      ≡ some t)
    × Obeys
        (UnsentTo process host (λ e w. w) "files" root)
        (CutOff process host (λ e w. w) "files" root (ok 2) (ok "{}"))
        t.received
        t.sent
        t.exit
        t.result
invoke_request_v2-ends_example =
    invoke_request_v2-ends process host (λ e w. w) "files" root (λ n. n) chat-IsUsedUp 3 2 (ok "{}")
      [] (omega arith)

-- the same talk under the grant of an operation without access
talk-ends :
    (t : Transcript World) × (invoke_request_v2 process
        (granting host (manifest_of []) calls 10 "t" "files" "default" (pos 50))
        (λ e w. w)
        "files"
        root
        3
        (ok 2)
        (ok "{}")
        []
      ≡ some t)
unfolding invoke_request_v2
talk-ends = (_, refl)

invoke_request_v2-declared_example : talk-ends.0.world ≡ []
invoke_request_v2-declared_example =
    invoke_request_v2-declared process host (manifest_of []) calls 10 "files" "default" (pos 50)
      root (λ e w. w) 3 (ok 2) (ok "{}") [] talk-ends.0 name-set token-held nothing-declared
      (λ e w. refl) talk-ends.1

-- the headers of a plugin with an Authorization, and a purpose for another header
abbrev auth : HttpAuthRequest
auth = record {
  bearer_token_purpose = "token";
  username_purpose = "";
  password_purpose = "";
  header_purposes = ("X-Key", "key") ∷ [];
}

abbrev own_headers : Map String
own_headers = ("Authorization", "mine") ∷ []

abbrev all_headers : Map String
all_headers = ("Authorization", "mine") ∷ ("X-Key", "v") ∷ []

resolved : resolve_http_auth (λ s. s) (λ p. ok "v") own_headers auth ≡ ok all_headers
unfolding resolve_http_auth resolve_http_header_purposes get put strings
resolved = refl

own-set : header "Authorization" own_headers ≢ ""
unfolding get strings
own-set h = ground (arith, eq_iff "mine" "")

resolve_http_auth-keeps_example : get "Authorization" all_headers ≡ get "Authorization" own_headers
resolve_http_auth-keeps_example =
    resolve_http_auth-keeps (λ s. s) (λ p. ok "v") own_headers auth "Authorization" all_headers
      resolved own-set

-- a write and a copy
abbrev uses : List Use
uses = by_write (1 ∷ 2 ∷ []) ∷ by_read_from (3 ∷ 4 ∷ []) ∷ []

cut :
    perform_all (by_write (1 ∷ 2 ∷ []) ∷ by_write (3 ∷ 4 ∷ []) ∷ []) (new_buffer 3)
    ≡ record { written = 1 ∷ 2 ∷ 3 ∷ []; limit = 3; truncated = true }
unfolding perform_all perform write
cut = refl

-- A copy by ReadFrom passes the limit without a mark.
read_from-unlimited :
    perform_all (by_read_from (1 ∷ 2 ∷ 3 ∷ 4 ∷ []) ∷ []) (new_buffer 3)
    ≡ record { written = 1 ∷ 2 ∷ 3 ∷ 4 ∷ []; limit = 3; truncated = false }
unfolding perform_all perform
read_from-unlimited = refl

perform_all-keeps_example :
    (((perform_all uses (new_buffer 3)).truncated ≡ true)
      ⊎ ((false ≡ false) × ((perform_all uses (new_buffer 3)).written ≡ [] ++ given uses)))
    × (length (perform_all uses (new_buffer 3)).written
        ≤ max 3 (length {A = ℕ} []) + length (unlimited uses))
perform_all-keeps_example = perform_all-keeps uses (new_buffer 3) (omega arith)
