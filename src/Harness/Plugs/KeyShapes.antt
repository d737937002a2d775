-- ===== src/Harness/Plugs/KeyShapes.antt =====
-- src/harness/plugs/keyshapes.ts: whether a text holds a key-shaped token.
-- The regular expression `\b(sk-ant-X{8,}|sk-X{8,}|X{40,})\b` is read as a search over start and
-- length; its first alternative is an instance of its second.
use hera_v.Shared.{
  ℕ, suc, ◌≡◌, refl, Bool, true, false, not, ◌&&◌, ◌||◌, Option, none, some, [], ◌∷◌, ◌==◌, leb,
}
use hera_v.Shared.Text.{Text, codes, starts_with}

-- `\w`
unfoldable pub is_word : ℕ → Bool
is_word c = (leb 48 c && leb c 57) || (leb 65 c && leb c 90) || (c == 95) || (leb 97 c && leb c 122)

-- `[A-Za-z0-9_-]`
unfoldable pub is_key_char : ℕ → Bool
unfolding is_word
is_key_char c = is_word c || (c == 45)

abbrev differ : Bool → Bool → Bool
differ true b = not b
differ false b = b

abbrev word_before : Option ℕ → Bool
word_before none = false
word_before (some c) = is_word c

abbrev word_after : Text → Bool
word_after [] = false
word_after (c ∷ s) = is_word c

-- `\b` between a character and a rest.
unfoldable pub boundary : Option ℕ → Text → Bool
unfolding is_word
boundary prev s = differ (word_before prev) (word_after s)

-- A run of key characters may stop after `n` of them.
abbrev long_enough : Bool → ℕ → Bool
long_enough prefixed n = leb 40 n || (prefixed && leb 11 n)

run_from : Bool → ℕ → Option ℕ → Text → Bool
unfolding boundary is_key_char
run_from prefixed n prev [] = long_enough prefixed n && boundary prev []
run_from prefixed n prev (c ∷ s) =
    (long_enough prefixed n && boundary prev (c ∷ s))
    || (is_key_char c && run_from prefixed (suc n) (some c) s)

key_at : Option ℕ → Text → Bool
unfolding run_from boundary starts_with
key_at prev s = boundary prev s && run_from (starts_with s (codes "sk-")) 0 prev s

scan_from : Option ℕ → Text → Bool
unfolding key_at
scan_from prev [] = key_at prev []
scan_from prev (c ∷ s) = key_at prev (c ∷ s) || scan_from (some c) s

unfoldable pub scan_key_shapes : Text → Bool
unfolding scan_from
scan_key_shapes text = scan_from none text

scan_test : scan_key_shapes (codes "curl -H sk-abcdefgh x") ≡ true
unfolding scan_key_shapes
scan_test = refl

scan_short_test : scan_key_shapes (codes "ask-abcdefgh sk-abcdefg") ≡ false
unfolding scan_key_shapes
scan_short_test = refl
