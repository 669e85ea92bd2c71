-- ===== src/Protocol/Tests.antt =====
-- The cases of obs-plugin/tests/native-tests.cpp for the parser, and the parser's theorems at concrete
-- lines.
use obs_vscode_privacy_guard.Base.{
  Bytes, [], codes, false, length, none, refl, some, true, ◌↔◌, ◌≡◌, ◌≤◌,
}
use obs_vscode_privacy_guard.Protocol.{Frame, FrameKind, max_frame_size, parse_frame}
use obs_vscode_privacy_guard.Protocol.Tokens.{Grammar}
use obs_vscode_privacy_guard.Protocol.Grammar.{parse_frame_iff}

test_hello :
    parse_frame (codes "PG/1 HELLO 01234567-89ab-cdef-0123-456789abcdef")
    ≡ some (record {
      kind = FrameKind.hello;
      client_id = codes "01234567-89ab-cdef-0123-456789abcdef";
      sequence = 0;
      sensitive = false;
    })
unfolding parse_frame
test_hello = refl

test_state :
    parse_frame (codes "PG/1 STATE 2 SENSITIVE")
    ≡ some (record { kind = FrameKind.state; client_id = []; sequence = 2; sensitive = true })
unfolding parse_frame
test_state = refl

test_refused :
    (parse_frame (codes "PG/1  GOODBYE") ≡ none)
    × (parse_frame (codes "PG/1 GOODBYE ") ≡ none)
    × (parse_frame (codes "PG/1 STATE x SAFE") ≡ none)
    × (parse_frame (codes "PG/1 HEARTBEAT 3") ≡ none)
    × (parse_frame (codes "PG/1 HELLO C:/secret.env") ≡ none)
    × (parse_frame (codes "PG/2 GOODBYE") ≡ none)
unfolding parse_frame
test_refused = (refl, refl, refl, refl, refl, refl)

-- A HELLO line and its frame.
abbrev an_id : Bytes
an_id = codes "01234567-89ab-cdef-0123-456789abcdef"

abbrev a_line : Bytes
a_line = codes "PG/1 STATE 17 SENSITIVE"

abbrev a_frame : Frame
a_frame = record { kind = FrameKind.state; client_id = []; sequence = 17; sensitive = true }

parse_frame_iff_example :
    (parse_frame a_line ≡ some a_frame)
    ↔ (Grammar a_line a_frame × (length a_line ≤ max_frame_size))
parse_frame_iff_example = parse_frame_iff a_line a_frame
