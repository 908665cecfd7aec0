-- ===== src/Checksum/Tests.antt =====
-- A concrete checksum for libsponge/util/util.cc.
use csed353_sponge.Common.{◌/◌, ◌%◌, ◌^◌, ◌≡◌, refl, [], ◌∷◌, ◌++◌, arith}
use csed353_sponge.Checksum.{new_checksum, add, value}
use csed353_sponge.Checksum.Verify.{checksum_verifies}

checksum_verifies_example :
    let v = value (add ((69 ∷ 0 ∷ []) ++ (0 ∷ 0 ∷ 255 ∷ [])) (new_checksum 7)) in
    value (add ((69 ∷ 0 ∷ []) ++ (v / 2 ^ 8 ∷ v % 2 ^ 8 ∷ 255 ∷ [])) (new_checksum 7)) ≡ 0
checksum_verifies_example =
    checksum_verifies (69 ∷ 0 ∷ []) (255 ∷ []) 7 refl (omega arith) (omega arith)
