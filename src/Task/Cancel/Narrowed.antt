-- ===== src/Task/Cancel/Narrowed.antt =====
-- What deleting and cancelling can do to the stored tasks: of the tasks concerned, each is left as it
-- is, deleted, or marked as Cancelling.
use hwmgmt_device_mgr_device.Base.{
  String, ◌≡◌, sym, ◌∙◌, ◌⊎◌, inl, inr, Option, none, some, ◌==◌, eq_iff, Bool-cases,
}
use mathlib.Core.Option.{some-injective}
use hwmgmt_device_mgr_device.Task.Model.{Task}
use hwmgmt_device_mgr_device.Task.Service.{Store, put, remove}

abbrev pub as_cancelling : Task → Task
as_cancelling t = record t { task_state = "Cancelling" }

-- What has become of the task with an id; `C` says whether it may have been marked.
abbrev pub Fate : Type 0 → Option Task → Option Task → Type 0
Fate C before after =
    (after ≡ none) ⊎ ((t : Task) × C × (before ≡ some t) × (after ≡ some (as_cancelling t)))

-- Only ids with `P` are concerned.
abbrev pub Narrowed : (String → Type 0) → Type 0 → Store → Store → Type 0
Narrowed P C s s' = (k : String) → (s' k ≡ s k) ⊎ (P k × Fate C (s k) (s' k))

Fate-trans : {C : Type 0} {a b c : Option Task} → Fate C a b → Fate C b c → Fate C a c
Fate-trans p (inl gone) = inl gone
Fate-trans (inl gone) (inr (t, _, stored, _)) = cc
Fate-trans (inr (t, m, stored, e)) (inr (t', _, stored', e')) =
    inr (t, m, stored, rw (sym (some-injective _ _ (sym e ∙ stored'))) at e')

module _ (P : String → Type 0) (C : Type 0) where
  pub same-Narrowed : {s s' : Store} → s' ≡ s → Narrowed P C s s'
  same-Narrowed e k = inl (rw e)

  pub Narrowed-trans : {a b c : Store} → Narrowed P C a b → Narrowed P C b c → Narrowed P C a c
  Narrowed-trans {a} {b} {c} p q k = join (p k) (q k)
    where
      join :
          (b k ≡ a k) ⊎ (P k × Fate C (a k) (b k))
          → (c k ≡ b k) ⊎ (P k × Fate C (b k) (c k))
          → (c k ≡ a k) ⊎ (P k × Fate C (a k) (c k))
      join (inl e) (inl e') = inl (e' ∙ e)
      join (inl e) (inr (d, fate)) = inr (d, rw e at fate)
      join (inr (d, fate)) (inl e) = inr (d, rw (sym e) at fate)
      join (inr (d, fate)) (inr (_, fate')) = inr (d, Fate-trans fate fate')

  pub remove-Narrowed :
      (s : Store) {s' : Store} (id : String) → P id → s' ≡ remove id s → Narrowed P C s s'
  remove-Narrowed s id p e k = elim (Bool-cases (id == k)) [
    | inl hit ↦ inr (rw ((eq_iff id k).0 hit) at p, inl (rw e (rw hit)))
    | inr miss ↦ inl (rw e (rw miss))
  ]

  pub put-Narrowed :
      {s s₁ s' : Store} (t : Task)
      → C
      → P t.id
      → s t.id ≡ some t
      → Narrowed P C s s₁
      → s' ≡ put (as_cancelling t) s₁
      → Narrowed P C s s'
  put-Narrowed {s} t c p stored n e k = elim (Bool-cases (t.id == k)) [
    | inl hit ↦ inr (
      rw ((eq_iff t.id k).0 hit) at p,
      inr (t, c, rw (sym ((eq_iff t.id k).0 hit)) stored, rw e (rw hit)),
    )
    | inr miss ↦ rw e (rw miss (n k))
  ]
