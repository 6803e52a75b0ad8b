-- ===== src/Context/Estimate.antt =====
-- `estimate_tokens` of crates/evo-context/src/lib.rs counts characters.
use Prim.Native.Char.{Char, code, len_utf8, len_utf8_def, width}
use Prim.Native.Nat.{compare, Ordering}
use Prim.Native.String.{len, count}
use Prim.Native.String.len as Len
use Prim.Native.String.count as Count
use evowork.Prelude.{◌*◌, ◌≤◌, String, ◌≡◌, arith}
use evowork.Context.{estimate_tokens}

width_bounds : (a b c : Ordering) → (1 ≤ width a b c) × (width a b c ≤ 4)
width_bounds a b c = ground arith

len_utf8_bounds : (c : Char) → (1 ≤ len_utf8 c) × (len_utf8 c ≤ 4)
len_utf8_bounds c =
    rw (len_utf8_def c)
      (width_bounds (compare (code c) 128) (compare (code c) 2048) (compare (code c) 65536))

-- A text has no fewer bytes than characters, and at most four times as many.
len-count : (s : String) → (count s ≤ len s) × (len s ≤ 4 * count s)
len-count String.[] = (omega (arith, Len.nil), omega arith)
len-count (String.◌∷◌ c s) =
    ground (arith, len_utf8_bounds c, len-count s, Len.cons c s, Count.cons c s)

-- The estimate is the number of characters of the text, whatever its script: a quarter of the bytes is
-- never more.
pub estimate_tokens_lem : (text : String) → estimate_tokens text ≡ count text
unfolding estimate_tokens
estimate_tokens_lem text = ground (arith, len-count text)
