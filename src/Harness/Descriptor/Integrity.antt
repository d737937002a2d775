-- ===== src/Harness/Descriptor/Integrity.antt =====
-- What the integrity check sees of a descriptor.
use hera_v.Shared.{◌≡◌, true, false, ◌↔◌, arith, ==_iff}
use hera_v.Shared.Text.{Text}
use hera_v.Harness.Descriptor.{Descriptor, simple_hash, freeze, verify_integrity}

pub freeze-frozen : (d : Descriptor) → (freeze d).frozen ≡ true
unfolding freeze
freeze-frozen d = ground arith

pub freeze-effect_id : (d : Descriptor) → (freeze d).effect_id ≡ d.effect_id
unfolding freeze
freeze-effect_id d = ground arith

-- A descriptor that was fresh when it was frozen passes the check, whatever its content has
-- become since, exactly when the hash of that content is the hash at the time of freezing.
pub verify_integrity-freeze :
    (d : Descriptor) (now : Text)
    → d.frozen ≡ false
    → (verify_integrity (record (freeze d) { content = now }) ≡ true)
      ↔ (simple_hash now ≡ simple_hash d.content)
unfolding freeze verify_integrity
verify_integrity-freeze d now fresh =
    ground (arith, ==_iff (simple_hash now) (simple_hash d.content))
