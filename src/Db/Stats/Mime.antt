-- ===== src/Db/Stats/Mime.antt =====
-- The statistics by MIME type.
use lumescope.Prelude.{
  String, ◌≡◌, ap, ◌∙◌, Bool, not, ◌&&◌, List, [], ◌∷◌, ◌==◌, string_eq, eq_iff, All, filter, any,
  length, map, arith, if-has,
}
use lumescope.Prelude.Int.{ℤ}
use lumescope.Db.Types.{ActionDb, Float64}
use lumescope.Db.Stats.Groups.{group_by, group_by-rows, any-group_by, rows_with}
use lumescope.Db.Stats.{MimeTypeStat, count_mime_types}

abbrev mime_of : ActionDb → String
mime_of a = a.mime_type

abbrev pub with_mime : String → List ActionDb → List ActionDb
with_mime m rows = filter (λ a. a.mime_type == m) rows

abbrev pub sizes : List ActionDb → List ℤ
sizes rows = map (λ (a : ActionDb). a.size) rows

module _ (avg : List ℤ → Float64) where
  abbrev to_stat : String × List ActionDb → MimeTypeStat
  to_stat g = record { mime_type = g.0; count = length g.1; avg_size = avg (sizes g.1) }

  abbrev is_named : MimeTypeStat → Bool
  is_named ms = not (ms.mime_type == "")

  -- the number of rows of the type, and the average of their sizes
  abbrev pub IsStatOf : List ActionDb → MimeTypeStat → Type 0
  IsStatOf rows ms =
      (ms.count ≡ length (with_mime ms.mime_type rows))
      × (ms.avg_size ≡ avg (sizes (with_mime ms.mime_type rows)))

  All-stats :
      (rows : List ActionDb) (gs : List (String × List ActionDb))
      → All (λ (g : String × List ActionDb). g.1 ≡ rows_with mime_of g.0 rows) gs
      → All (IsStatOf rows) (filter is_named (map to_stat gs))
  All-stats rows [] h = tt
  All-stats rows (g ∷ gs) h =
      if-has (All (IsStatOf rows)) (not (g.0 == "")) _ _
        (λ _. ((ap length h.0, ap (λ l. avg (sizes l)) h.0), All-stats rows gs h.1))
        (λ _. All-stats rows gs h.1)

  any-named :
      (m : String) (gs : List (String × List ActionDb))
      → any (λ (ms : MimeTypeStat). ms.mime_type == m) (filter is_named (map to_stat gs))
        ≡ (not (m == "") && any (λ (g : String × List ActionDb). g.0 == m) gs)
  any-named m [] = ground arith
  any-named m (g ∷ gs) = ground (arith, any-named m gs, eq_iff g.0 m, eq_iff g.0 "", eq_iff m "")

  -- In the statistics of a list of actions by MIME type, each entry has the number of the actions of
  -- its type and the average of their sizes, and the types that have an entry are those that occur,
  -- without the empty one.
  pub count_mime_types_lem :
      (rows : List ActionDb)
      → All (IsStatOf rows) (count_mime_types avg rows)
        × ((m : String)
            → any (λ (ms : MimeTypeStat). ms.mime_type == m) (count_mime_types avg rows)
              ≡ (not (m == "") && any (λ (a : ActionDb). a.mime_type == m) rows))
  unfolding count_mime_types
  count_mime_types_lem rows = (
    All-stats rows (group_by mime_of rows) (group_by-rows mime_of rows),
    λ m.
        any-named m (group_by mime_of rows)
        ∙ ap (λ b. not (m == "") && b) (any-group_by mime_of m rows),
  )
