-- ===== src/Server/Token.antt =====
-- links/server.py: the token in the header of a request. Letters other than ASCII's are not folded.
use policy_mesh.Prelude.{
  none, some, ◌==◌, ◌||◌, Option, ◌&&◌, codes_start, leb, nat_eq, Bool, if◌then◌else◌, lower,
  String, codes, ℕ,
}
use Prim.Native.Char.{code}

-- `str.isspace` on a code point
unfoldable pub is_space : ℕ → Bool
is_space c =
    (leb 9 c && leb c 13)
    || ((leb 28 c && leb c 32)
        || (nat_eq c 133
            || (nat_eq c 160
                || (nat_eq c 5760
                    || ((leb 8192 c && leb c 8202)
                        || (nat_eq c 8232
                            || (nat_eq c 8233
                                || (nat_eq c 8239 || (nat_eq c 8287 || nat_eq c 12288)))))))))

unfoldable pub strip_left : String → String
unfolding is_space
strip_left String.[] = ""
strip_left (String.◌∷◌ c s) =
    let rest = strip_left s in if is_space (code c) then rest else String.◌∷◌ c s

unfoldable pub strip_right : String → String
unfolding is_space
strip_right String.[] = ""
strip_right (String.◌∷◌ c s) =
    let rest = strip_right s in if is_space (code c) && rest == "" then "" else String.◌∷◌ c rest

-- `s.split(" ", 1)[1]`, for a text that has a space
unfoldable pub after_space : String → String
after_space String.[] = ""
after_space (String.◌∷◌ c s) = let rest = after_space s in if nat_eq (code c) b' ' then s else rest

unfoldable pub bearer_token : Option String → Option String
unfolding strip_left strip_right after_space codes lower codes_start
bearer_token none = none
bearer_token (some authorization) =
    if codes_start (codes "bearer ") (lower authorization)
    then some (strip_right (strip_left (after_space authorization)))
    else none
