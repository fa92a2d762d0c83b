-- ===== src/Libs/Links/Tests.antt =====
-- A list at 9 that holds the nodes 1 and 2, and a node 3 in no list.
use ucas_oslab.Base.{◌==◌, ◌≡◌, refl, [], ◌∷◌, ◌++◌, if◌then◌else◌, arith}
use ucas_oslab.Base.Run.{ok}
use ucas_oslab.Libs.Links.{Links, list_append, list_delete}
use ucas_oslab.Libs.Links.Ring.{IsRing, Free}
use ucas_oslab.Libs.Links.Ops.{list_append-IsRing, list_delete-IsRing}

abbrev two : Links
two = record {
  next = λ n. if n == 9 then 1 else if n == 1 then 2 else if n == 2 then 9 else 0;
  prev = λ n. if n == 9 then 2 else if n == 1 then 9 else if n == 2 then 1 else 0;
  container = λ n. if n == 1 then 9 else if n == 2 then 9 else 0;
}

two-IsRing : IsRing two 9 (1 ∷ 2 ∷ [])
two-IsRing = record {
  chain = (refl, refl, (refl, refl, (refl, refl)));
  apart = refl;
  not_null = refl;
  owned = λ x inside. ground arith;
}

two-Free : Free two 3
two-Free = record { no_next = refl; no_prev = refl; no_container = refl }

list_append-IsRing_example :
    (s' : Links) × (list_append two 9 3 ≡ ok s') × IsRing s' 9 ((1 ∷ 2 ∷ []) ++ (3 ∷ []))
list_append-IsRing_example = list_append-IsRing two 9 3 (1 ∷ 2 ∷ []) two-IsRing two-Free refl

list_delete-IsRing_example :
    (s' : Links) × (list_delete two 2 ≡ ok s') × IsRing s' 9 ((1 ∷ []) ++ []) × Free s' 2
list_delete-IsRing_example = list_delete-IsRing two 9 2 (1 ∷ []) [] two-IsRing
