-- ===== src/Signaling/Hub/Order.antt =====
-- Go visits a map in any order: a broadcast does not depend on it.
use mathlib.Core.List.{Permᴰ}
use p_and_pp.Base.{
  ℕ, ◌≡◌, refl, sym, ap, subst, fun_ext, ◌∙◌, String, Bool, false, List, arith, All, done, ◌≢◌,
}
use p_and_pp.Signaling.Message.{Message}
use p_and_pp.Signaling.Hub.{Peer, Channels, deliver_all}
use p_and_pp.Signaling.Hub.Delivery.{reached, Unused, Apart, Open, spread, deliver_all_lem}

reached-perm : (r : ℕ) {ps qs : List (String × Peer)} → Permᴰ ps qs → reached r ps ≡ reached r qs
unfolding reached
reached-perm r Permᴰ.nil = refl
reached-perm r (Permᴰ.cons e p) = ground (arith, reached-perm r p)
reached-perm r (Permᴰ.swap e f) = ground arith
reached-perm r (Permᴰ.trans p q) = reached-perm r p ∙ reached-perm r q

All-perm {ℓ κ} : {A : Type ℓ} (P : A → Type κ) {xs ys : List A} → Permᴰ xs ys → All P xs → All P ys
All-perm P Permᴰ.nil h = tt
All-perm P (Permᴰ.cons e p) h = (subst P e h.0, All-perm P p h.1)
All-perm P (Permᴰ.swap e f) h = (subst P f h.1.0, (subst P e h.0, h.1.1))
All-perm P (Permᴰ.trans p q) h = All-perm P q (All-perm P p h)

Unused-perm : (r : ℕ) {ps qs : List (String × Peer)} → Permᴰ ps qs → Unused r ps → Unused r qs
Unused-perm r = All-perm (λ e. e.1.send ≢ r)

Apart-perm : {ps qs : List (String × Peer)} → Permᴰ ps qs → Apart ps → Apart qs
Apart-perm Permᴰ.nil h = tt
Apart-perm (Permᴰ.cons {b = b} {l₂ = qs} e p) h =
    (subst (λ x. Unused x.1.send qs) e (Unused-perm _ p h.0), Apart-perm p h.1)
Apart-perm (Permᴰ.swap {l = l} e f) h = (
  (λ s. h.0.0 (ground (arith, e, f)), subst (λ x. Unused x.1.send l) f h.1.0),
  (subst (λ x. Unused x.1.send l) e h.0.1, h.1.1),
)
Apart-perm (Permᴰ.trans p q) h = Apart-perm q (Apart-perm p h)

module _ {R : Type 0} where
  -- If the channels of all entries are open and no two entries share one, a broadcast to the entries
  -- has one outcome, in whatever order they are visited.
  pub deliver_all-perm :
      {ps qs : List (String × Peer)} (m : Message R) (c : Channels R)
      → Permᴰ ps qs
      → Open c ps
      → Apart ps
      → deliver_all qs m c ≡ deliver_all ps m c
  deliver_all-perm {ps} {qs} m c p o a =
      rw
        (
          deliver_all_lem ps m c o a,
          deliver_all_lem qs m c (All-perm (λ e. (c e.1.send).closed ≡ false) p o) (Apart-perm p a),
        )
        (ap (λ (f : ℕ → Bool). done (spread f m c)) (fun_ext (λ q. sym (reached-perm q p))))
