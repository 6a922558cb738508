-- ===== src/Thread/Order.antt =====
-- The order of the messages of a thread (`sort_by_key` on `created` in src/main.rs).
use webex_generic_account_bo.Base.{
  ◌≡◌, keep, ◌&&◌, ap, ◌∙◌, refl, Bool, true, false, Option, none, some, List, [], ◌∷◌, ℤ,
  leb_ℤ-total, leb_ℤ-trans, arith,
}
use webex_generic_account_bo.Webex.{Message}
use webex_generic_account_bo.Thread.{created_le, insert_by_created, sort_by_created}

-- The first message, if there is one, is not older than a time.
abbrev StartsAfter : Option ℤ → List Message → Type 0
StartsAfter t [] = Unit
StartsAfter t (m ∷ ms) = created_le t m.created ≡ true

-- Each message is at most as old as the one before it; those without a time come first.
abbrev pub IsSorted : List Message → Type 0
IsSorted [] = Unit
IsSorted (m ∷ ms) = StartsAfter m.created ms × IsSorted ms

-- The messages of one time, in their order.
abbrev pub of_time : Option ℤ → List Message → List Message
of_time t ms = keep (λ m. created_le t m.created && created_le m.created t) ms

created_le-total : (s t : Option ℤ) → created_le s t ≡ false → created_le t s ≡ true
unfolding created_le
created_le-total none t h = cc
created_le-total (some a) none h = refl
created_le-total (some a) (some b) h = leb_ℤ-total a b h

insert-StartsAfter :
    (t : Option ℤ) (m : Message) (ms : List Message)
    → created_le t m.created ≡ true
    → StartsAfter t ms
    → StartsAfter t (insert_by_created m ms)
unfolding insert_by_created
insert-StartsAfter t m [] p q = p
insert-StartsAfter t m (n ∷ ns) p q = ground arith

placed-IsSorted :
    (before : Bool) (m n : Message) (ns : List Message)
    → (before ≡ true → created_le m.created n.created ≡ true)
    → (before ≡ false → created_le n.created m.created ≡ true)
    → IsSorted (n ∷ ns)
    → IsSorted (insert_by_created m ns)
    → IsSorted (elim before [ true ↦ m ∷ n ∷ ns | false ↦ n ∷ insert_by_created m ns ])
placed-IsSorted true m n ns p r q ih = (p refl, q)
placed-IsSorted false m n ns p r q ih = (insert-StartsAfter n.created m ns (r refl) q.0, ih)

insert-IsSorted :
    (m : Message) (ms : List Message) → IsSorted ms → IsSorted (insert_by_created m ms)
unfolding insert_by_created
insert-IsSorted m [] q = (tt, tt)
insert-IsSorted m (n ∷ ns) q =
    placed-IsSorted (created_le m.created n.created) m n ns (λ e. e)
      (created_le-total m.created n.created) q (insert-IsSorted m ns q.1)

created_le_trans :
    (s t u : Option ℤ) → created_le s t ≡ true → created_le t u ≡ true → created_le s u ≡ true
unfolding created_le
created_le_trans none t u p q = refl
created_le_trans (some a) none u p q = cc
created_le_trans (some a) (some b) none p q = cc
created_le_trans (some a) (some b) (some c) p q = leb_ℤ-trans a b c p q

of_time-insert :
    (t : Option ℤ) (m : Message) (ms : List Message)
    → of_time t (insert_by_created m ms) ≡ of_time t (m ∷ ms)
unfolding insert_by_created
of_time-insert t m [] = refl
of_time-insert t m (n ∷ ns) =
    ground (arith, of_time-insert t m ns, created_le_trans m.created t n.created)

-- Sorting a thread puts its messages in the order of their times, and keeps the messages of each time
-- in the order in which they came.
pub sort_by_created-IsSorted :
    (t : Option ℤ) (ms : List Message)
    → IsSorted (sort_by_created ms) × (of_time t (sort_by_created ms) ≡ of_time t ms)
unfolding sort_by_created
sort_by_created-IsSorted t [] = (tt, refl)
sort_by_created-IsSorted t (m ∷ ms) =
    let q = sort_by_created-IsSorted t ms in
    (
      insert-IsSorted m (sort_by_created ms) q.0,
      of_time-insert t m (sort_by_created ms)
          ∙ keep_more (created_le t m.created && created_le m.created t) m q.1,
    )
  where
    keep_more :
        (b : Bool) (m : Message) {xs ys : List Message}
        → xs ≡ ys
        → ◌≡◌ {A = List Message}
            (elim b [ true ↦ m ∷ xs | false ↦ xs ])
            (elim b [ true ↦ m ∷ ys | false ↦ ys ])
    keep_more true m p = ap (λ x. m ∷ x) p
    keep_more false m p = p
