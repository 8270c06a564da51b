-- ===== src/Mutex/Lock.antt =====
-- One mutex, among processes of which it is known who has it and who stands in line for it.
use native.Mathlib.Decide.{ℕ_discrete}
use mathlib.Core.Path.{fun_ext}
use horaci_os.Prelude.{
  ℕ, ◌≡◌, ◌≢◌, refl, sym, ◌∙◌, ap, subst, List, [], ◌∷◌, ◌++◌, Bool, true, false, ◌==◌,
  if◌then◌else◌, All, All-append, assign, assign_self, assign_ne, Queued, Queued-other, Queued-join,
  arith,
}
use horaci_os.Mutex.Spec.{View, free, held}

abbrev pub Holder : ℕ → View → Type 0
Holder p free = ⊥
Holder p (held h ws) = h ≡ p

abbrev pub stands : ℕ → List ℕ → Bool
stands p [] = false
stands p (w ∷ ws) = if w == p then true else stands p ws

abbrev pub Waits : ℕ → View → Type 0
Waits p free = ⊥
Waits p (held h ws) = stands p ws ≡ true

abbrev pub Kept : (ℕ → Bool) → (ℕ → Bool) → View → Type 0
Kept has lined free = Unit {0}
Kept has lined (held h ws) =
    (has h ≡ true) × All (λ v. v ≢ h) ws × Queued (λ (b : Bool). b) lined ws

-- The holder has the mutex and nobody else does, the queue has those that stand in line, each once, and the holder is
-- none of them.
pub record Locked (has lined : ℕ → Bool) (v : View) : Type 0 where
  pub kept : Kept has lined v
  pub alone : (p : ℕ) → has p ≡ true → Holder p v
  pub waits : (p : ℕ) → lined p ≡ true → Waits p v

stands_last : (p : ℕ) (ws : List ℕ) → stands p (ws ++ p ∷ []) ≡ true
stands_last p [] = ground arith
stands_last p (w ∷ ws) = ground (arith, stands_last p ws)

stands-append : (q p : ℕ) (ws : List ℕ) → stands q ws ≡ true → stands q (ws ++ p ∷ []) ≡ true
stands-append q p [] h = cc
stands-append q p (w ∷ ws) h = ground (arith, stands-append q p ws)

module _ {has lined : ℕ → Bool} where
  pub take_it : (p : ℕ) → Locked has lined free → Locked (assign has p true) lined (held p [])
  take_it p k = record {
    kept = (assign_self has p true, tt, tt);
    alone = λ q h. elim (ℕ_discrete q p) [
      | yes e ↦ sym e
      | no ne ↦ absurd (k.alone q (sym (assign_ne has p true q ne) ∙ h))
    ];
    waits = λ q h. absurd (k.waits q h);
  }

  pub join_it :
      (p h : ℕ) (ws : List ℕ)
      → Locked has lined (held h ws)
      → h ≢ p
      → lined p ≡ false
      → Locked has (assign lined p true) (held h (ws ++ p ∷ []))
  join_it p h ws k ne out = record {
    kept = (
      k.kept.0,
      All-append (λ v. v ≢ h) ws (p ∷ []) k.kept.1 ((λ e. ne (sym e)), tt),
      Queued-join (λ (b : Bool). b) lined p true ws k.kept.2 out refl,
    );
    alone = k.alone;
    waits = λ q at. elim (ℕ_discrete q p) [
      | yes e ↦ subst (λ (i : ℕ). stands i (ws ++ p ∷ []) ≡ true) (sym e) (stands_last p ws)
      | no ne' ↦ stands-append q p ws (k.waits q (sym (assign_ne lined p true q ne') ∙ at))
    ];
  }

  pub drop_it : (h : ℕ) → Locked has lined (held h []) → Locked (assign has h false) lined free
  drop_it h k = record {
    kept = tt;
    alone = λ q at. elim (ℕ_discrete q h) [
      | yes e ↦ cc (ap (assign has h false) e ∙ assign_self has h false)
      | no ne ↦ absurd (ne (sym (k.alone q (sym (assign_ne has h false q ne) ∙ at))))
    ];
    waits = λ q at. cc (k.waits q at);
  }

  pub pass_it :
      (h w : ℕ) (ws : List ℕ)
      → Locked has lined (held h (w ∷ ws))
      → Locked (assign (assign has h false) w true) (assign lined w false) (held w ws)
  pass_it h w ws k =
      let (at, apart, queue) = k.kept in
      record {
        kept = (
          assign_self (assign has h false) w true,
          queue.1,
          Queued-other (λ (b : Bool). b) lined w false ws queue.2 queue.1,
        );
        alone = λ q b. elim (ℕ_discrete q w) [
          | yes e ↦ sym e
          | no ne ↦ elim (ℕ_discrete q h) [
            | yes e ↦ cc (
              sym (assign_ne (assign has h false) w true q ne) ∙ b,
              ap (assign has h false) e ∙ assign_self has h false,
            )
            | no ne' ↦ absurd (
                ne' (
                  sym (
                    k.alone q (
                      sym (assign_ne has h false q ne')
                      ∙ sym (assign_ne (assign has h false) w true q ne)
                      ∙ b))))
          ]
        ];
        waits = λ q b. elim (ℕ_discrete q w) [
          | yes e ↦ cc (ap (assign lined w false) e ∙ assign_self lined w false)
          | no ne ↦ let old = k.waits q (sym (assign_ne lined w false q ne) ∙ b) in ground arith
        ];
      }

-- Only who has it and who stands in line matter.
pub Locked-same :
    {has lined has' lined' : ℕ → Bool} {v : View}
    → ((q : ℕ) → has' q ≡ has q)
    → ((q : ℕ) → lined' q ≡ lined q)
    → Locked has lined v
    → Locked has' lined' v
Locked-same {has} {lined} {has'} {lined'} {v} e f k =
    subst (λ (g : ℕ → Bool). Locked g lined' v) (sym (fun_ext e))
      (subst (λ (g : ℕ → Bool). Locked has g v) (sym (fun_ext f)) k)
