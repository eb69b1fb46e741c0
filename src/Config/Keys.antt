-- ===== src/Config/Keys.antt =====
-- config/pipeline.go: what the accessors of a plugin's reserved keys return.
use Prim.Native.String.{◌++◌}
use text.Mathlib.Text.{starts_with}
use text.Mathlib.TextEquality.{eq_iff}
use text.Mathlib.TextPositions.{eq_refl}
use neptunus.Base.{
  ℕ, String, ◌≡◌, refl, false, none, some, ◌==◌, string_comparable, if◌then◌else◌, arith,
  Bool-cases, inl, inr,
}
use neptunus.Config.{
  Value, Plugin, str, uint64, end, field, index, assign, keep_prefixed, plugin_id, compressor,
}

index-assign :
    (k j : String) (v : Value) (p : Plugin)
    → index j (assign k v p) ≡ (if k == j then some v else index j p)
unfolding index assign
index-assign k j v end = refl
index-assign k j v (field i w p) =
    ground (arith, eq_iff k j, eq_iff i k, eq_iff i j, index-assign k j v p)

-- The id that a plugin has been given stays: a second call returns it whatever number it draws,
-- and changes the configuration no more. No other key is affected.
plugin_id-stable :
    (p : Plugin) (r s : ℕ)
    → (plugin_id (plugin_id p r).1 s ≡ plugin_id (plugin_id p r).1 r)
      × ((plugin_id (plugin_id p r).1 s).0 ≡ (plugin_id p r).0)
      × ((k : String) → (k == "::plugin_id") ≡ false → index k (plugin_id p r).1 ≡ index k p)
unfolding plugin_id
plugin_id-stable p r s =
    let own = index-assign "::plugin_id" "::plugin_id" (uint64 r) p in
    (
      ground (arith, own, eq_refl "::plugin_id"),
      ground (arith, own, eq_refl "::plugin_id"),
      λ k h. ground (
        arith,
        index-assign "::plugin_id" k (uint64 r) p,
        eq_iff k "::plugin_id",
        eq_iff "::plugin_id" k,
      ),
    )

index-keep_prefixed :
    (prefix k : String) (p : Plugin)
    → index k (keep_prefixed prefix p) ≡ (if starts_with k prefix then index k p else none)
unfolding index keep_prefixed
index-keep_prefixed prefix k end = ground arith
index-keep_prefixed prefix k (field j v p) = elim (Bool-cases (j == k)) [
  | inl e ↦
      rw ((eq_iff j k).0 e, eq_refl k) (ground (arith, index-keep_prefixed prefix k p, eq_refl k))
  | inr e ↦ ground (arith, index-keep_prefixed prefix k p, e)
]

-- If `Compressor` returns a configuration, the plugin has the name of it as a text under the key
-- "compressor", and the configuration has exactly the plugin's keys with that name and "_" as
-- their prefix, with their values.
compressor_lem :
    (p c : Plugin) (name k : String)
    → compressor p ≡ some (c, name)
    → (index "compressor" p ≡ some (str name))
      × (index k c ≡ (if starts_with k (name ++ "_") then index k p else none))
unfolding compressor
compressor_lem p c name k h = (ground arith, ground (arith, index-keep_prefixed (name ++ "_") k p))
