-- ===== src/Task/Create/Linked.antt =====
-- What `CreateChildTaskUtil` stores.
use hwmgmt_device_mgr_device.Base.{
  String, ◌≡◌, refl, sym, ap, ◌∙◌, ◌≢◌, inl, inr, true, false, none, some, [], ◌∷◌, ◌++◌, arith,
  ◌==◌, eq_iff, eq_refl, Bool-cases,
}
use mathlib.Core.Option.{some-injective}
use hwmgmt_device_mgr_device.Base.Text.{◌<>◌, has_char}
use hwmgmt_device_mgr_device.Base.Exec.{Outcome, ok, err, panic, Exec, bind-ok, ◌>>=◌}
use hwmgmt_device_mgr_device.Task.Model.{Task, Time, tasks_uri}
use hwmgmt_device_mgr_device.Task.Service.{TasksRpc, TaskStore, Store, put}
use hwmgmt_device_mgr_device.Task.Update.Operation.{wrap}
use hwmgmt_device_mgr_device.Task.Create.Operations.{
  new_task, create_task_util, create_child_task_util, link_child, adopt, child_id_of_uri,
}
use hwmgmt_device_mgr_device.Task.Create.Created.{
  at_clock, at_uuid, create_task_util-Made, ok-injective,
}
use hwmgmt_device_mgr_device.Task.Create.ChildId.{child_id_of_uri-task}

wrap-ok :
    {W A : Type 0} (prefix : String) (m : Exec W String A) (w : W) {a : A}
    → (wrap prefix m w).0 ≡ ok a
    → (m w).0 ≡ ok a
wrap-ok {A} prefix m w {a} h = from_outcome (m w).0 h
  where
    from_outcome :
        (o : Outcome String A)
        → (let r : Outcome String A = elim o [
          | ok x ↦ ok x
          | err e ↦ err (prefix <> e)
          | panic p ↦ panic p
        ] in
            r)
          ≡ ok a
        → o ≡ ok a
    from_outcome (ok x) k = k
    from_outcome (err x) k = cc
    from_outcome (panic x) k = cc

-- What a block that returned has done first, where an error would have been given a prefix.
bind-wrap :
    {W A B : Type 0} (prefix : String) (m : Exec W String A) (f : A → Exec W String B) (w : W)
    {b : B}
    → ((wrap prefix m >>= f) w).0 ≡ ok b
    → (a : A) × ((m w).0 ≡ ok a) × ((f a (m w).1).0 ≡ ok b)
bind-wrap prefix m f w h =
    let (a, e, k) = bind-ok (wrap prefix m) f w h in (a, wrap-ok prefix m w e, k)

abbrev as_child : String → String → Task → Task
as_child p id child = record child { parent_id = p; uri = tasks_uri <> p <> "/" <> id }

abbrev as_parent : String → Task → Task
as_parent id parent = record parent { child_task_ids = parent.child_task_ids ++ id ∷ [] }

-- What a child task that was created under the task `parent_id` has changed.
pub record Linked (parent_id uri : String) (s s' : Store) : Type 0 where
  pub parent : Task
  pub child : Task
  pub parent_before : s parent_id ≡ some parent
  pub child_before : s child.id ≡ none
  pub parent_after :
      s' parent_id
      ≡ some (record parent { child_task_ids = parent.child_task_ids ++ child.id ∷ [] })
  pub child_after : s' child.id ≡ some child
  pub linked : child.parent_id ≡ parent_id
  pub owner : child.user_name ≡ parent.user_name
  pub new : child.task_state ≡ "New"
  pub location : uri ≡ tasks_uri <> child.id
  pub others : (k : String) → parent_id ≢ k → child.id ≢ k → s' k ≡ s k

different : (a b : String) → a ≢ b → (a == b) ≡ false
different a b n = ground (arith, eq_iff a b)

stored_link :
    (user p id : String) (time : Time) (parent child : Task) (s s' : Store) {uri : String}
    → s p ≡ some parent
    → parent.id ≡ p
    → s id ≡ none
    → put (new_task user id time) s id ≡ some child
    → s' ≡ put (as_parent id parent) (put (as_child p id child) (put (new_task user id time) s))
    → uri ≡ tasks_uri <> id
    → user ≡ parent.user_name
    → Linked p uri s s'
unfolding new_task
stored_link user p id time parent child s s' before key free found e location owner = record {
  parent = parent;
  child = as_child p id (new_task user id time);
  parent_before = before;
  child_before = free;
  parent_after = rw e (rw ((eq_iff parent.id p).1 key));
  child_after = rw e (rw (different parent.id id apart, same) (rw (eq_refl id)));
  linked = refl;
  owner = owner;
  new = refl;
  location = location;
  others = λ k n m.
      rw e (rw (different parent.id k (λ x. n (sym key ∙ x)), same) (rw (different id k m)));
}
  where
    apart : parent.id ≢ id
    apart x = let q : s p ≡ s id = ap s (sym key ∙ x) in cc

    same : child ≡ new_task user id time
    same =
        let hit : put (new_task user id time) s id ≡ some (new_task user id time) =
          rw (eq_refl id) in
        some-injective _ _ (sym found ∙ hit)

module _ (ts : TasksRpc) (st : TaskStore ts) where
  link_child-ok :
      (p id : String) (parent child : Task) (w : ts.World) {uri : String}
      → (link_child ts p parent id child w).0 ≡ ok uri
      → (uri ≡ tasks_uri <> id)
        × (st.tasks (link_child ts p parent id child w).1
            ≡ put (as_parent id parent) (put (as_child p id child) (st.tasks w)))
  unfolding link_child
  link_child-ok p id parent child w h =
      let (_, u, k) = bind-wrap _ (ts.update_task_status_model (as_child p id child)) _ w h in
      let w₁ = (ts.update_task_status_model (as_child p id child) w).1 in
      let (_, u', r) = bind-wrap _ (ts.update_task_status_model (as_parent id parent)) _ w₁ k in
      (
        sym (ok-injective r),
        rw (u, u')
            (st.update-ok (as_parent id parent) w₁ u'
              ∙ ap (put (as_parent id parent)) (st.update-ok (as_child p id child) w u)),
      )

  adopt-ok :
      (p id task_uri : String) (parent : Task) (w : ts.World) {uri : String}
      → child_id_of_uri task_uri ≡ ok id
      → (adopt ts p parent task_uri w).0 ≡ ok uri
      → (uri ≡ tasks_uri <> id)
        × (child : Task) × (st.tasks w id ≡ some child)
        × (st.tasks (adopt ts p parent task_uri w).1
            ≡ put (as_parent id parent) (put (as_child p id child) (st.tasks w)))
  unfolding adopt
  adopt-ok p id task_uri parent w i h =
      let (child, g, k) = bind-wrap _ (ts.get_task_status_model id) _ w (rw (i, adopt) at h) in
      let (location, stored) =
        link_child-ok p id parent child (ts.get_task_status_model id w).1 k in
      (
        location,
        child,
        st.get-ok id w g,
        rw (i, g)
            (stored
              ∙ ap (λ s. put (as_parent id parent) (put (as_child p id child) s))
                  (st.get-tasks id w)),
      )

  nothing :
      (user p : String) (w : ts.World) {uri : String}
      → (p == "") ≡ true
      → (create_child_task_util ts user p w).0 ≢ ok uri
  unfolding create_child_task_util
  nothing user p w hit = rw hit (λ k. cc)

  adopted :
      (p : String) (parent : Task) (task_uri : String) (w : ts.World) {uri : String}
      → let w₁ = (ts.get_task_status_model p w).1 in
        let w₂ = (create_task_util ts parent.user_name w₁).1 in
        ((v : ts.World) → has_char b'/' (ts.new_uuid v).0 ≡ false)
        → (ts.get_task_status_model p w).0 ≡ ok parent
        → (create_task_util ts parent.user_name w₁).0 ≡ ok task_uri
        → (adopt ts p parent task_uri w₂).0 ≡ ok uri
        → Linked p uri (st.tasks w) (st.tasks (adopt ts p parent task_uri w₂).1)
  adopted p parent task_uri w {uri} plain g c k =
      let w₁ = (ts.get_task_status_model p w).1 in
      let w₂ = (create_task_util ts parent.user_name w₁).1 in
      let made = create_task_util-Made ts st parent.user_name w₁ c in
      let id = "task" <> (ts.new_uuid (at_uuid ts st parent.user_name w₁)).0 in
      let time = (ts.now (at_clock ts st parent.user_name w₁)).0 in
      let read : st.tasks w₁ ≡ st.tasks w = st.get-tasks p w in
      let found : child_id_of_uri task_uri ≡ ok id =
        ap child_id_of_uri made.location
        ∙ child_id_of_uri-task _ (plain (at_uuid ts st parent.user_name w₁)) in
      let (location, child, there, stored) = adopt-ok p id task_uri parent w₂ found k in
      let made_of_w : st.tasks w₂ ≡ put (new_task parent.user_name id time) (st.tasks w) =
        made.stored ∙ ap (put (new_task parent.user_name id time)) read in
      stored_link parent.user_name p id time parent child (st.tasks w) _ (st.get-ok p w g)
        (st.get-id p w g) (rw read at made.fresh) (rw made_of_w at there)
        (stored ∙ ap (λ s. put (as_parent id parent) (put (as_child p id child) s)) made_of_w)
        location refl

  joined :
      (user p : String) (parent : Task) (task_uri : String) (w : ts.World)
      → let w₁ = (ts.get_task_status_model p w).1 in
        (p == "") ≡ false
        → (ts.get_task_status_model p w).0 ≡ ok parent
        → (create_task_util ts parent.user_name w₁).0 ≡ ok task_uri
        → create_child_task_util ts user p w
          ≡ adopt ts p parent task_uri (create_task_util ts parent.user_name w₁).1
  unfolding create_child_task_util
  joined user p parent task_uri w miss g c = rw (miss, g, wrap, c)

  -- A successful `CreateChildTaskUtil` has stored a new task, in state New and with the owner of its
  -- parent; parent and child name each other, and the other tasks are as they were. The generator of
  -- ids makes none with a slash.
  pub create_child_task_util-Linked :
      (user parent_id : String) (w : ts.World) {uri : String}
      → ((v : ts.World) → has_char b'/' (ts.new_uuid v).0 ≡ false)
      → (create_child_task_util ts user parent_id w).0 ≡ ok uri
      → Linked parent_id uri (st.tasks w) (st.tasks (create_child_task_util ts user parent_id w).1)
  unfolding create_child_task_util
  create_child_task_util-Linked user p w plain h = elim (Bool-cases (p == "")) [
    | inl hit ↦ absurd (nothing user p w hit h)
    | inr miss ↦
        let (parent, g, k₁) =
          bind-wrap _ (ts.get_task_status_model p) _ w (rw (miss, create_child_task_util) at h) in
        let w₁ = (ts.get_task_status_model p w).1 in
        let (task_uri, c, k₂) = bind-wrap _ (create_task_util ts parent.user_name) _ w₁ k₁ in
        rw (joined user p parent task_uri w miss g c) (adopted p parent task_uri w plain g c k₂)
  ]
