-- ===== src/Prelude/Texts.antt =====
-- Python's `str.strip` and `str.endswith`, as tests on texts.
use Prim.Native.Nat.{ℕ}
use Prim.Native.Char.{code}
use Prim.Native.String.{String, [], ◌∷◌, ◌++◌}
use mathlib.Core.Bool.{Bool, true, false, ◌&&◌, ◌||◌}
use text.Mathlib.Text.{◌==◌}
use agent_langraph.Prelude.Tests.{leb, eqb}

-- `str.isspace` of one character, by its code.
abbrev pub is_space : ℕ → Bool
is_space c =
    (leb 9 c && leb c 13)
    || ((leb 28 c && leb c 32)
        || (eqb c 133
            || (eqb c 160
                || (eqb c 5760
                    || ((leb 8192 c && leb c 8202)
                        || (eqb c 8232
                            || (eqb c 8233 || (eqb c 8239 || (eqb c 8287 || eqb c 12288)))))))))

-- `not s.strip()`
unfoldable pub is_blank : String → Bool
is_blank [] = true
is_blank (c ∷ s) = is_space (code c) && is_blank s

-- `text.endswith(suffix)`
unfoldable pub ends_with : String → String → Bool
ends_with suffix [] = suffix == []
ends_with suffix (c ∷ s) = let rest = ends_with suffix s in (suffix == (c ∷ s)) || rest

-- `s + t`
abbrev pub concat : String → String → String
concat s t = s ++ t

-- `text.startswith(prefix)`
unfoldable pub starts_with : String → String → Bool
starts_with [] s = true
starts_with (c ∷ p) [] = false
starts_with (c ∷ p) (d ∷ s) = (c ∷ []) == (d ∷ []) && starts_with p s
