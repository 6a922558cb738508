-- ===== src/Scheduler/Listing.antt =====
-- Which jobs a rescan starts (`pending_message_ids_sync` of src/message_jobs.rs).
use webex_generic_account_bo.Base.{
  ℕ, zero, suc, ◌≤◌, ◌≡◌, false, not, List, [], ◌∷◌, All, keep, map, take, length, arith,
}
use webex_generic_account_bo.Text.{Text, contains_text}
use webex_generic_account_bo.Scheduler.Pending.{
  Entry, insert_entry, sort_entries, pending_message_ids,
}

-- The entry is for a job that is not excluded.
abbrev IsFree : List Text → Entry → Type 0
IsFree excluded e = contains_text e.1 excluded ≡ false

keep-IsFree :
    (excluded : List Text) (es : List Entry)
    → All (IsFree excluded) (keep (λ e. not (contains_text e.1 excluded)) es)
keep-IsFree excluded [] = tt
keep-IsFree excluded (e ∷ es) = ground (arith, keep-IsFree excluded es)

insert-IsFree :
    (excluded : List Text) (e : Entry) (es : List Entry)
    → IsFree excluded e
    → All (IsFree excluded) es
    → All (IsFree excluded) (insert_entry e es)
unfolding insert_entry
insert-IsFree excluded e [] p q = (p, tt)
insert-IsFree excluded e (f ∷ fs) p q = ground (arith, insert-IsFree excluded e fs p q.1)

sort-IsFree :
    (excluded : List Text) (es : List Entry)
    → All (IsFree excluded) es
    → All (IsFree excluded) (sort_entries es)
unfolding sort_entries
sort-IsFree excluded [] p = tt
sort-IsFree excluded (e ∷ es) p = insert-IsFree excluded e _ p.0 (sort-IsFree excluded es p.1)

take-IsFree :
    (excluded : List Text) (n : ℕ) (es : List Entry)
    → All (IsFree excluded) es
    → All (λ id. contains_text id excluded ≡ false) (map (λ e. e.1) (take n es))
take-IsFree excluded zero es p = tt
take-IsFree excluded (suc n) [] p = tt
take-IsFree excluded (suc n) (e ∷ es) p = (p.0, take-IsFree excluded n es p.1)

length-map-take : (n : ℕ) (es : List Entry) → length (map (λ (e : Entry). e.1) (take n es)) ≤ n
length-map-take zero es = omega arith
length-map-take (suc n) [] = omega arith
length-map-take (suc n) (e ∷ es) = omega (arith, length-map-take n es)

-- The jobs that a rescan asks the index for are at most as many as the limit, and none of them is
-- excluded.
pub pending_message_ids_lem :
    (entries : List Entry) (excluded : List Text) (limit : ℕ)
    → (length (pending_message_ids entries excluded limit) ≤ limit)
      × All (λ id. contains_text id excluded ≡ false) (pending_message_ids entries excluded limit)
unfolding pending_message_ids
pending_message_ids_lem entries excluded limit = (
  length-map-take limit _,
  take-IsFree excluded limit _ (sort-IsFree excluded _ (keep-IsFree excluded entries)),
)
