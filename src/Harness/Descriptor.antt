-- ===== src/Harness/Descriptor.antt =====
-- src/harness/descriptor.ts: the effect descriptor, its freezing and its integrity check.
-- `content` is the text that `computeDescriptorHash` serialises by `JSON.stringify`.
use Prim.Native.Nat.{bit_xor}
use hera_v.Shared.{
  ℕ, ◌*◌, ◌%◌, String, Bool, true, false, Option, none, some, [], ◌∷◌, if◌then◌else◌, ◌==◌,
}
use hera_v.Shared.Text.{Text}
pub mod Integrity

pub record Descriptor : Type 0 where
  pub effect_id : String
  pub kind : String
  pub target : String
  pub content : Text
  pub hash : Option ℕ  -- `_hash`
  pub frozen : Bool  -- `_frozen`

-- One round of the FNV-1a loop: an exclusive or, and `Math.imul` in 32 bits.
pub mix : ℕ → ℕ → ℕ
mix hash unit = (bit_xor hash unit * 0x01000193) % 0x100000000

hash_from : ℕ → Text → ℕ
hash_from hash [] = hash
hash_from hash (unit ∷ str) = hash_from (mix hash unit) str

-- The number whose hexadecimal digits the source returns.
unfoldable pub simple_hash : Text → ℕ
unfolding hash_from mix
simple_hash str = hash_from 0x811c9dc5 str

unfoldable pub freeze : Descriptor → Descriptor
freeze d = if d.frozen then d else record d { frozen = true; hash = some (simple_hash d.content) }

abbrev pub same_hash : Option ℕ → ℕ → Bool
same_hash none n = false
same_hash (some m) n = n == m

unfoldable pub verify_integrity : Descriptor → Bool
verify_integrity d = if d.frozen then same_hash d.hash (simple_hash d.content) else true
