-- ===== src/Os/Table.antt =====
-- Sets of descriptors or of processes, as tests on their numbers.
use shiori.Base.{◌≡◌, refl, ap, fun_ext, Bool, true, false, not, ◌&&◌, ◌||◌, inl, inr, Bool-cases}
use shiori.Base.Int.{ℤ, eq_int, eq_int_sound, eq_int_refl}

abbrev pub Table : Type 0
Table = ℤ → Bool

unfoldable pub add : ℤ → Table → Table
add a t x = t x || eq_int x a

unfoldable pub remove : ℤ → Table → Table
remove a t x = t x && not (eq_int x a)

remove-add_at : (a x : ℤ) (t : Table) → t a ≡ false → remove a (add a t) x ≡ t x
unfolding remove add
remove-add_at a x t h = elim (Bool-cases (eq_int x a)) [
  | inl e ↦ elim (Bool-cases (t x)) [
    | inl u ↦ cc (u, h, ap t (eq_int_sound x a e))
    | inr u ↦ rw (e, u) refl
  ]
  | inr e ↦ elim (Bool-cases (t x)) [ inl u ↦ rw (e, u) refl | inr u ↦ rw (e, u) refl ]
]

-- What is added to a set it was not in, and removed, leaves the set.
pub remove-add : (a : ℤ) (t : Table) → t a ≡ false → remove a (add a t) ≡ t
remove-add a t h = fun_ext (λ x. remove-add_at a x t h)

pub remove_comm : (a b : ℤ) (t : Table) → remove a (remove b t) ≡ remove b (remove a t)
unfolding remove
remove_comm a b t = fun_ext (λ x. elim (Bool-cases (t x)) [
  | inl u ↦ rw u (elim (Bool-cases (eq_int x a)) [
    | inl e ↦ rw e (elim (Bool-cases (eq_int x b)) [ inl f ↦ rw f refl | inr f ↦ rw f refl ])
    | inr e ↦ rw e (elim (Bool-cases (eq_int x b)) [ inl f ↦ rw f refl | inr f ↦ rw f refl ])
  ])
  | inr u ↦ rw u refl
])

-- To remove what is not in a set changes nothing.
pub remove_absent : (a : ℤ) (t : Table) → t a ≡ false → remove a t ≡ t
unfolding remove
remove_absent a t h = fun_ext (λ x. elim (Bool-cases (eq_int x a)) [
  | inl e ↦ elim (Bool-cases (t x)) [
    | inl u ↦ cc (u, h, ap t (eq_int_sound x a e))
    | inr u ↦ rw (e, u) refl
  ]
  | inr e ↦ elim (Bool-cases (t x)) [ inl u ↦ rw (e, u) refl | inr u ↦ rw (e, u) refl ]
])

pub add-other : (a b : ℤ) (t : Table) → t b ≡ false → eq_int b a ≡ false → add a t b ≡ false
unfolding add
add-other a b t h e = rw (h, e) refl

pub add_has : (a : ℤ) (t : Table) → add a t a ≡ true
unfolding add
add_has a t = elim (Bool-cases (t a)) [ inl e ↦ rw e refl | inr e ↦ rw (e, eq_int_refl a) refl ]
