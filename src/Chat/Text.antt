-- ===== src/Chat/Text.antt =====
-- C strings in examples/sherry-chat.c: what `%s` reads, and what `sprintf` writes into a buffer. How
-- `%d` writes a number is a parameter of the definitions that use it.
use Prim.Native.Char.{code}
use Prim.Native.String.{String}
use sherry.Base.{
  ℕ, ◌≤◌, ◌<◌, ◌≡◌, refl, ◌==◌, ltb, if◌then◌else◌, Option, none, some, List, [], ◌∷◌, ◌++◌, length,
  arith,
}

-- The bytes of a text of the source.
abbrev pub codes : String → List ℕ
codes String.[] = []
codes (String.◌∷◌ c s) = code c ∷ codes s

-- The bytes before the first NUL.
unfoldable pub c_string : List ℕ → List ℕ
c_string [] = []
c_string (b ∷ bs) = if b == 0 then [] else b ∷ c_string bs

-- `sprintf` into a buffer of `size` bytes: `none` where the text and its NUL do not fit.
unfoldable pub sprintf : ℕ → List ℕ → Option (List ℕ)
sprintf size text = if ltb (length text) size then some text else none

-- What `sendStringMsg` allocates and sends: the string with its NUL.
unfoldable pub string_payload : List ℕ → List ℕ
string_payload text = c_string text ++ 0 ∷ []

pub length-c_string-le : (bs : List ℕ) → length (c_string bs) ≤ length bs
unfolding c_string
length-c_string-le [] = omega arith
length-c_string-le (b ∷ bs) = ground (arith, length-c_string-le bs)

pub sprintf_fits : (size : ℕ) (text : List ℕ) → length text < size → sprintf size text ≡ some text
unfolding sprintf
sprintf_fits size text h = ground (arith, h)

-- Reading a string again, with its NUL or without, gives the same string.
pub c_string-c_string : (bs rest : List ℕ) → c_string (c_string bs ++ 0 ∷ rest) ≡ c_string bs
unfolding c_string
c_string-c_string [] rest = refl
c_string-c_string (b ∷ bs) rest = ground (arith, c_string-c_string bs rest)
