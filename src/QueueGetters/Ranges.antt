-- ===== src/QueueGetters/Ranges.antt =====
-- How src/classes/queue-getters.ts merges the ids of several types.
use bullmq.Shared.{
  Bool, false, List, [], ◌∷◌, ◌++◌, append_assoc, append-nil, Option, String, has, IsDistinct,
  Bool-cases, inl, inr, ◌≡◌, refl, ap, sym, ◌∙◌,
}
use bullmq.QueueGetters.{
  insert, insert_all, collect, collect_all, get_job_ids, or_nil, get_ranges, merge, multi_commands,
  reversed, Command, zrange, lrange,
}
use bullmq.QueueGetters.Totals.{insert_all-IsDistinct, has-insert_all}

abbrev pub concat : List (Option (List String)) → List String
concat [] = []
concat (r ∷ rs) = or_nil r ++ concat rs

insert_all-append :
    (xs ys zs : List String) → insert_all (xs ++ ys) zs ≡ insert_all ys (insert_all xs zs)
insert_all-append [] ys zs = refl
insert_all-append (x ∷ xs) ys zs = insert_all-append xs ys (insert x zs)

collect_lem :
    (is seen : List String) → collect is (seen, seen) ≡ (insert_all is seen, insert_all is seen)
unfolding collect insert
collect_lem [] seen = refl
collect_lem (i ∷ is) seen = elim (Bool-cases (has seen i)) [
  | inl e ↦ rw e (collect_lem is seen)
  | inr e ↦ rw e (collect_lem is (seen ++ i ∷ []))
]

collect_all_lem :
    (rs : List (Option (List String))) (seen : List String)
    → collect_all rs (seen, seen) ≡ (insert_all (concat rs) seen, insert_all (concat rs) seen)
unfolding collect_all
collect_all_lem [] seen = refl
collect_all_lem (r ∷ rs) seen =
    rw (collect_lem (or_nil r) seen, insert_all-append (or_nil r) (concat rs) seen)
      (collect_all_lem rs (insert_all (or_nil r) seen))

reversed_not : (c : Command) (l : List String) → reversed false c l ≡ l
reversed_not zrange l = refl
reversed_not lrange l = refl

merge_not :
    (rs : List (Option (List String))) (cs : List Command) (results : List String)
    → merge false rs cs results ≡ results ++ concat rs
unfolding merge
merge_not [] cs results = sym (append-nil results)
merge_not (r ∷ rs) [] results =
    merge_not rs [] (results ++ or_nil r) ∙ append_assoc results (or_nil r) (concat rs)
merge_not (r ∷ rs) (c ∷ cs) results =
    rw (reversed_not c (or_nil r))
      (merge_not rs cs (results ++ or_nil r) ∙ append_assoc results (or_nil r) (concat rs))

get_ranges_not :
    (backend : List String → Bool → List (Option (List String))) (types : List String)
    → get_ranges backend types false ≡ insert_all (concat (backend types false)) []
unfolding get_ranges
get_ranges_not backend types =
    ap (λ l. insert_all l []) (merge_not (backend types false) (multi_commands types) [])

-- Both ways to find the ids of `getJobs` agree where the order is not ascending: from the same
-- answers, the loop for the Redis backend collects what `getRanges` returns for the others. No id
-- is there twice, and each id of an answer, and no other, is there.
pub get_job_ids_lem :
    (backend : List String → Bool → List (Option (List String))) (types : List String)
    → let ids = get_job_ids (backend types false) in
      (ids ≡ get_ranges backend types false)
      × IsDistinct ids
      × ((i : String) → has ids i ≡ has (concat (backend types false)) i)
unfolding get_job_ids
get_job_ids_lem backend types =
    let answers = backend types false in
    let same = ap (λ (p : List String × List String). p.1) (collect_all_lem answers []) in
    (
      same ∙ sym (get_ranges_not backend types),
      rw same (insert_all-IsDistinct (concat answers) [] tt),
      λ i. rw same (has-insert_all (concat answers) [] i),
    )
