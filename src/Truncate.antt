-- ===== src/Truncate.antt =====
-- `truncate` of services/runner/src/index.ts and `truncateBuffer` of
-- services/worker/src/runners/local-runner.ts: the first bytes of a text. A character that is cut in
-- two is decoded as one U+FFFD, as the decoder of Node.js does with an incomplete last sequence.
pub mod Laws
use Prim.Native.Char.{Char, len_utf8}
use Prim.Native.String
use cloud_code_execution_eng.Prelude.{ℕ, ◌-◌, String, len, leb, if◌then◌else◌, ◌==◌}

-- `buffer.subarray(0, room).toString("utf8")`.
unfoldable pub first_bytes : String → ℕ → String
first_bytes String.[] room = ""
first_bytes (String.◌∷◌ c s) room =
    let rest = first_bytes s (room - len_utf8 c) in
    if leb (len_utf8 c) room then String.◌∷◌ c rest else if room == 0 then "" else "�"

unfoldable pub truncate : String → ℕ → String
unfolding first_bytes
truncate input max_bytes = if leb (len input) max_bytes then input else first_bytes input max_bytes
