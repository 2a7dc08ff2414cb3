-- ===== src/Persistence/Entries.antt =====
-- The entries of secondary indexes of lib-persistence-manager/persistencemgr/redis.go: what
-- CreateIndex writes for a resource, and what the searches take out of it again.
use text.Mathlib.TextLemmas.{append_assoc}
use hwmgmt_device_mgr_device.Base.{String, ◌≡◌, refl, ap, ◌∙◌, false, [], ◌∷◌, map}
use hwmgmt_device_mgr_device.Base.Text.{◌<>◌, has_char, split_colons, show, join_spaces}
use hwmgmt_device_mgr_device.Base.Text.Digits.{split_colons-join, show-has_char}
use hwmgmt_device_mgr_device.Base.Exec.{ok}
use hwmgmt_device_mgr_device.Persistence.Redis.{Redis}
use hwmgmt_device_mgr_device.Persistence.Indexes.{id_part}
use hwmgmt_device_mgr_device.Persistence.Updates.{
  IndexValue, an_int, a_float, a_string, strings, floats, unsupported, bracket, Score, index_entry,
}

module _ (db : Redis) where
  -- The printed form of a value that can be indexed, in the entry.
  abbrev pub printed : IndexValue db.floats.Float → String
  printed (an_int n) = show n
  printed (a_float v) = db.floats.format_float v
  printed (a_string s) = db.to_lower s
  printed (strings xs) = db.to_lower (bracket (join_spaces xs))
  printed (floats vs) = bracket (join_spaces (map db.floats.format_float vs))
  printed (unsupported v) = ""

  -- The values with a printed form without a colon: all integers, and others that have none.
  abbrev pub IsPlain : IndexValue db.floats.Float → Type 0
  IsPlain (an_int n) = Unit
  IsPlain (unsupported v) = ⊥
  IsPlain v = has_char b':' (printed v) ≡ false

  id_part-join :
      (v uuid : String)
      → has_char b':' v ≡ false
      → split_colons uuid ≡ uuid ∷ []
      → id_part (v <> "::" <> uuid) ≡ ok uuid
  id_part-join v uuid h u = rw (split_colons-join v uuid h, u, id_part) refl

  -- For a supported value whose printed form has no colon, which every integer is, and for an id
  -- without a double colon, the searches take the id unchanged out of the entry that CreateIndex writes.
  pub index_entry-id_part :
      (uuid : String) (value : IndexValue db.floats.Float)
      → IsPlain value
      → split_colons uuid ≡ uuid ∷ []
      → (e : Score db × String) × (index_entry db uuid value ≡ ok e) × (id_part e.1 ≡ ok uuid)
  unfolding index_entry
  index_entry-id_part uuid (an_int n) p u =
      (_, refl, id_part-join (show n) uuid (show-has_char n) u)
  index_entry-id_part uuid (a_float v) p u = (_, refl, id_part-join _ uuid p u)
  index_entry-id_part uuid (a_string s) p u = (_, refl, id_part-join _ uuid p u)
  index_entry-id_part uuid (strings xs) p u = (_, refl, id_part-join _ uuid p u)
  index_entry-id_part uuid (floats vs) p u = (_, refl, id_part-join _ uuid p u)
  index_entry-id_part uuid (unsupported v) p u = absurd p

  -- A text that in lower case reads `a::b`, where a and b have no colon, hides the id of its resource:
  -- what the searches take out of its entry is b, whichever resource the entry was written for.
  pub index_entry-misread :
      (uuid s a b : String)
      → db.to_lower s ≡ a <> "::" <> b
      → has_char b':' a ≡ false
      → has_char b':' b ≡ false
      → (e : Score db × String) × (index_entry db uuid (a_string s) ≡ ok e) × (id_part e.1 ≡ ok b)
  unfolding index_entry
  index_entry-misread uuid s a b h p q =
      let apart : (a <> "::" <> b) <> "::" <> uuid ≡ a <> "::" <> (b <> "::" <> uuid) =
        append_assoc a ("::" <> b) ("::" <> uuid)
        ∙ ap (λ r. a <> r) (append_assoc "::" b ("::" <> uuid)) in
      (
        _,
        refl,
        rw
            (
              h,
              apart,
              split_colons-join a (b <> "::" <> uuid) p,
              split_colons-join b uuid q,
              id_part,
            )
            refl,
      )
