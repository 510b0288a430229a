-- ===== src/Context/Counter.antt =====
-- internal/counter/counter.go: the estimate of one token for four bytes. `int64` is not exceeded
-- by texts that fit in a memory, so the total is a plain number.
use Prim.Native.Char.{code}
use Prim.Native.String as Native
use blades.Common.{ℕ, ◌+◌, ◌/◌, ◌≡◌, String, ltb, if◌then◌else◌, List, [], ◌∷◌, ◌++◌, arith}
use blades.Message.{Part, text_part, file_part, data_part, tool_part, Message}

-- `len(s)` counts bytes of UTF-8.
unfoldable pub len : String → ℕ
len Native.[] = 0
len (Native.◌∷◌ c s) =
    (if ltb (code c) 128
      then 1
      else if ltb (code c) 2048
      then 2
      else if ltb (code c) 65536
      then 3
      else 4)
    + len s

unfoldable pub count_part : Part → ℕ
unfolding len
count_part (text_part text) = (len text + 3) / 4
count_part (tool_part tool) = (len tool.name + len tool.request + len tool.response + 3) / 4
count_part (file_part _) = 0
count_part (data_part _) = 0

unfoldable pub count_parts : List Part → ℕ
unfolding count_part
count_parts [] = 0
count_parts (p ∷ parts) = count_part p + count_parts parts

unfoldable pub count : List Message → ℕ
unfolding count_parts
count [] = 0
count (m ∷ messages) = count_parts m.parts + 4 + count messages

-- The estimate of a history is the sum of the estimates of its parts, wherever it is cut.
pub count-append : (xs ys : List Message) → count (xs ++ ys) ≡ count xs + count ys
unfolding count
count-append [] ys = omega arith
count-append (m ∷ xs) ys = omega (arith, count-append xs ys)
