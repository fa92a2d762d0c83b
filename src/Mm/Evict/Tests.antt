-- ===== src/Mm/Evict/Tests.antt =====
-- Three pages: a table, a page whose accessed bit is set and a page whose accessed bit is not set.
use ucas_oslab.Base.{ℕ, ◌⊎◌, ◌==◌, ◌≡◌, none, some, List, [], ◌∷◌, arith, length, if◌then◌else◌}
use ucas_oslab.Mm.Evict.{Ptes, second_chance_evict}
use ucas_oslab.Mm.Evict.SecondChance.{lead, Chosen, second_chance_evict_total}

abbrev queue : List ℕ
queue = 0 ∷ 1 ∷ 2 ∷ []

abbrev three : Ptes
three page = if page == 0 then none else if page == 1 then some 79 else some 15

second_chance_evict_total_example :
    ((lead three queue ≡ length queue)
      × (second_chance_evict 12 three queue ≡ some (none, three, queue)))
    ⊎ ((page : ℕ) × (ptes' : Ptes) × (pages' : List ℕ) × (second_chance_evict 12 three queue
          ≡ some (some page, ptes', pages'))
        × Chosen page ptes' pages')
second_chance_evict_total_example = second_chance_evict_total three queue 12 (omega arith)
