-- ===== src/Privhelper/Limit.antt =====
-- pkg/network/privhelper/server.go and protocol.go: the size of a request on the wire, and its limit.
-- A request is the JSON that encoding/json writes of it, with its escapes; no arguments are a nil
-- slice.
use macvz.Prelude.{
  ltb, if◌then◌else◌, length, is_empty, contains, Text, codes, codes_key, text_key, number_key, ℕ,
  zero, suc, ◌+◌, ◌^◌, Bool, ◌||◌, Option, none, some, List, [], ◌∷◌,
}
use macvz.Prelude.Strings.{ℤ, pos, negsuc, itoa}
use macvz.Privhelper.Server.{Message}

-- maxRequestBytes
abbrev pub max_request_bytes : ℕ
max_request_bytes = 2 ^ 20

-- The bytes of a character in a JSON string.
unfoldable pub character_size : ℕ → ℕ
character_size c =
    if contains (34 ∷ 92 ∷ 8 ∷ 9 ∷ 10 ∷ 12 ∷ 13 ∷ []) c
    then 2
    else if ltb c 32 || contains (b'<' ∷ b'>' ∷ b'&' ∷ 8232 ∷ 8233 ∷ []) c
    then 6
    else if ltb c 128
    then 1
    else if ltb c 2048
    then 2
    else if ltb c 65536
    then 3
    else 4

unfoldable pub characters_size : Text → ℕ
unfolding character_size
characters_size [] = 0
characters_size (c ∷ s) = character_size c + characters_size s

abbrev pub string_size : Text → ℕ
string_size s = 2 + characters_size s

-- The arguments after the first, each with its comma.
unfoldable pub more_args_size : List Text → ℕ
unfolding characters_size
more_args_size [] = 0
more_args_size (a ∷ args) = 1 + string_size a + more_args_size args

abbrev pub args_size : List Text → ℕ
args_size [] = length (codes "null")
args_size (a ∷ args) = 2 + string_size a + more_args_size args

-- A field with its name, its colon and a comma.
abbrev pub field_size : Text → ℕ → ℕ
field_size name size = length name + 4 + size

abbrev pub text_field_size : Text → Text → ℕ
text_field_size name s = if is_empty s then 0 else field_size name (string_size s)

abbrev pub protocol_size : ℤ → ℕ
protocol_size (pos zero) = 0
protocol_size (pos n) = field_size (codes "protocol") (length (itoa n))
protocol_size (negsuc n) = field_size (codes "protocol") (1 + length (itoa (suc n)))

-- The size of a request: the last field has no comma, and the braces are two bytes.
unfoldable pub encoded_size : Message → ℕ
unfolding characters_size more_args_size
encoded_size m =
    protocol_size m.protocol
    + text_field_size (codes "op") m.op
    + field_size (codes "name") (string_size m.request.name)
    + field_size (codes "args") (args_size m.request.args)
    + text_field_size (codes "stdin") m.request.stdin
    + 1

abbrev pub is_oversized : Message → Bool
is_oversized m = ltb max_request_bytes (encoded_size m)

-- What the daemon decodes of a request: one beyond the limit is cut, and does not decode.
abbrev pub decoded : Message → Option Message
decoded m = if is_oversized m then none else some m
