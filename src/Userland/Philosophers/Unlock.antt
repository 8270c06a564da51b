-- ===== src/Userland/Philosophers/Unlock.antt =====
-- What a call of `mutex_unlock` keeps at the table.
use mathlib.Core.Path.{fun_ext}
use horaci_os.Prelude.{
  map-assign, map-assign_same, ℕ, ◌≡◌, ◌≢◌, refl, sym, ◌∙◌, ap, subst, List, [], ◌∷◌, Bool, true,
  false, ◌==◌, Bool-cases, inl, inr, assign, assign_ne, arith,
}
use horaci_os.Mutex.Spec.{View, free, held, Effect, wakes, unlock, release}
use horaci_os.Userland.Philosophers.{Spot, Position, in_line, inside, wanted, woken}
use horaci_os.Mutex.Lock.{Locked, Holder, drop_it, pass_it, Locked-same}
use horaci_os.Userland.Philosophers.Table.{has, lined}
use horaci_os.Userland.Philosophers.Calls.{AllLocked, stays, wanted_self, all_locked, lined_lem}

-- The places after a call of settle.
abbrev pub place_after : Effect → (ℕ → Position) → ℕ → Position
place_after (wakes w) pc = assign pc w (woken (pc w))
place_after e pc = pc

not_lined : (m : ℕ) (t : Spot) → lined m (inside t) ≡ false
unfolding lined
not_lined m t = refl

not_lined_in : (m : ℕ) (t : Spot) → m ≢ wanted t → lined m (inside t) ≡ lined m (in_line t)
unfolding lined
not_lined_in m t ne = ground arith

has_inside : (m : ℕ) (t : Spot) → m ≢ wanted t → has m (inside t) ≡ has m (in_line t)
unfolding has
has_inside m t ne = ground arith

-- Process `p` gives mutex `k` back, if it has it, and goes to a place where it has all its others.
module _ (pc : ℕ → Position) (mx : ℕ → View) (all : AllLocked pc mx) (p k : ℕ) (x y : Position)
    (e : pc p ≡ x) (gone : has k y ≡ false) (rest : (m : ℕ) → m ≢ k → has m y ≡ has m x)
    (out : (m : ℕ) → lined m y ≡ lined m x) where
  abbrev pc₁ : ℕ → Position
  pc₁ = assign pc p y

  elsewhere : (m : ℕ) → m ≢ k → Locked (λ q. has m (pc₁ q)) (λ q. lined m (pc₁ q)) (mx m)
  elsewhere m ne =
      stays m pc p y (mx m) (rest m ne ∙ sym (ap (has m) e)) (out m ∙ sym (ap (lined m) e)) (all m)

  -- A process that is not the holder has nothing to give back.
  not_mine :
      (v : View)
      → Locked (λ q. has k (pc q)) (λ q. lined k (pc q)) v
      → (Holder p v → ⊥)
      → AllLocked pc₁ (assign mx k v)
  not_mine v here others =
      all_locked pc₁ mx k v
        (stays k pc p y v
          (elim (Bool-cases (has k (pc p))) [
            | inl at ↦ absurd (others (here.alone p at))
            | inr at ↦ gone ∙ sym at
          ])
          (out k ∙ sym (ap (lined k) e)) here)
        elsewhere

  mine_last :
      Locked (λ q. has k (pc q)) (λ q. lined k (pc q)) (held p [])
      → AllLocked pc₁ (assign mx k free)
  mine_last here =
      all_locked pc₁ mx k free
        (Locked-same (map-assign (has k) pc p y false gone)
          (map-assign_same (lined k) pc p y (out k ∙ sym (ap (lined k) e))) (drop_it p here))
        elsewhere

  -- The first in line gets the mutex and goes on.
  mine_next :
      (w : ℕ) (ws : List ℕ)
      → Locked (λ q. has k (pc q)) (λ q. lined k (pc q)) (held p (w ∷ ws))
      → AllLocked (assign pc₁ w (woken (pc₁ w))) (assign mx k (held w ws))
  unfolding woken
  mine_next w ws here =
      let ne : w ≢ p = here.kept.1.0 in
      let (t, at, wants) = lined_lem k (pc w) here.kept.2.0 in
      let at₁ : pc₁ w ≡ in_line t = assign_ne pc p y w ne ∙ at in
      let pc₂ : ℕ → Position = assign pc₁ w (inside t) in
      let entered : AllLocked pc₂ (assign mx k (held w ws)) =
        all_locked pc₂ mx k (held w ws)
          (Locked-same
            (λ q.
              map-assign (has k) pc₁ w (inside t) true
                (subst (λ (i : ℕ). has i (inside t) ≡ true) wants (wanted_self t)) q
              ∙ ap (λ (f : ℕ → Bool). assign f w true q)
                  (fun_ext (map-assign (has k) pc p y false gone)))
            (λ q.
              map-assign (lined k) pc₁ w (inside t) false (not_lined k t) q
              ∙ ap (λ (f : ℕ → Bool). assign f w false q)
                  (fun_ext (map-assign_same (lined k) pc p y (out k ∙ sym (ap (lined k) e)))))
            (pass_it p w ws here))
          (λ m other.
            stays m pc₁ w (inside t) (mx m)
              (has_inside m t (λ h. other (h ∙ wants)) ∙ sym (ap (has m) at₁))
              (not_lined_in m t (λ h. other (h ∙ wants)) ∙ sym (ap (lined m) at₁))
              (elsewhere m other)) in
      rw at₁ entered

  pub unlock_on :
      (v : View)
      → Locked (λ q. has k (pc q)) (λ q. lined k (pc q)) v
      → AllLocked (place_after (unlock p v).1 pc₁) (assign mx k (unlock p v).0)
  unfolding unlock release
  unlock_on free here = not_mine free here (λ h. h)
  unlock_on (held h []) here = elim (Bool-cases (h == p)) [
    | inl mine ↦
        let same : h ≡ p = ground arith in
        rw mine (
          mine_last (
            subst (λ (i : ℕ). Locked (λ q. has k (pc q)) (λ q. lined k (pc q)) (held i [])) same
              here))
    | inr other ↦ let ne : h ≢ p = ground arith in rw other (not_mine (held h []) here ne)
  ]
  unlock_on (held h (w ∷ ws)) here = elim (Bool-cases (h == p)) [
    | inl mine ↦
        let same : h ≡ p = ground arith in
        rw mine (
          mine_next w ws (
            subst (λ (i : ℕ). Locked (λ q. has k (pc q)) (λ q. lined k (pc q)) (held i (w ∷ ws)))
              same here))
    | inr other ↦ let ne : h ≢ p = ground arith in rw other (not_mine (held h (w ∷ ws)) here ne)
  ]
