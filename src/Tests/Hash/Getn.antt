-- ===== src/Tests/Hash/Getn.antt =====
-- The length of tables with gaps, found through their hash part.
use luascript.Prelude.{ℕ, ◌-◌, ◌^◌, ◌<◌, ◌≡◌, refl, true, some, [], ◌∷◌, arith, length}
use luascript.Prelude.Int.{◌+ℤ◌}
use luascript.Core.Object.{log2}
use luascript.Core.Hash.{blank, luah_set, put}
use luascript.Core.Resize.{finish}
use luascript.Core.Getn.{luah_getn}
use luascript.Core.Getn.Search.{IsBorder}
use luascript.Core.Getn.Border.{holds, luah_getn-IsBorder}
use luascript.Tests.Hash.{hashing, assign, moved_keys, grown_keys}

-- The keys 1, 2, 4 and 7 are in the hash part.
luah_getn_run : luah_getn hashing moved_keys ≡ some 4
unfolding luah_getn luah_set put assign
luah_getn_run = refl

-- The keys 1, 2 and 4 are in the array part.
luah_getn_grown : luah_getn hashing grown_keys ≡ some 4
unfolding luah_getn luah_set put assign finish ◌+ℤ◌ log2
luah_getn_grown = refl

not_shared : moved_keys.dummy ≡ true → moved_keys.node ≡ blank ∷ []
unfolding luah_set put assign
not_shared h = absurd (cc)

few_places : (length moved_keys.array ≡ 0) × (length moved_keys.node ≡ 4)
unfolding luah_set put assign
few_places = (refl, refl)

luah_getn-IsBorder_example :
    (b : ℕ) × (luah_getn hashing moved_keys ≡ some b)
    × IsBorder (holds hashing moved_keys) b
    × (b < 2 ^ 31 - 1)
luah_getn-IsBorder_example =
    let (no_array, four_nodes) = few_places in
    luah_getn-IsBorder hashing moved_keys (omega (arith, no_array))
      (omega (arith, no_array, four_nodes)) not_shared
