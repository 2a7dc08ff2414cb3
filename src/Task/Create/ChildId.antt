-- ===== src/Task/Create/ChildId.antt =====
-- The id that `CreateChildTaskUtil` takes from the URI of a new task.
use Prim.Native.Char.{Char}
use Prim.Native.String.append
use hwmgmt_device_mgr_device.Base.{String, ◌≡◌, refl, List, ◌∷◌, ◌∙◌, ap, false}
use hwmgmt_device_mgr_device.Base.Text.{
  ◌<>◌, has_char, split, split-append, ends_with, ends_with-append, ends_with_of_piece,
  get_elem?-last, last_or,
}
use hwmgmt_device_mgr_device.Base.Exec.{ok}
use hwmgmt_device_mgr_device.Task.Model.{tasks_uri}
use hwmgmt_device_mgr_device.Task.Create.Operations.{child_id_of_uri}
use text.Mathlib.TextLemmas.{append_assoc}

abbrev collection : String
collection = "/redfish/v1/TaskService/Tasks"

tasks_uri-lem : (s : String) → tasks_uri <> s ≡ collection <> String.◌∷◌ "/" s
tasks_uri-lem s =
    append_assoc collection "/" s ∙ ap (λ t. collection <> t) (rw (append.cons, append.nil))

child_id_of_uri-split :
    (uri x y : String) (xs : List String)
    → ends_with b'/' uri ≡ false
    → split b'/' uri ≡ x ∷ y ∷ xs
    → child_id_of_uri uri ≡ ok (last_or (y ∷ xs) "")
unfolding child_id_of_uri
child_id_of_uri-split uri x y xs closed pieces =
    rw (child_id_of_uri, closed, pieces, get_elem?-last x (y ∷ xs))

-- The id of a task is what `child_id_of_uri` finds in its URI, if it is not empty and has no slash.
pub child_id_of_uri-tasks_uri :
    (c : Char) (s : String)
    → has_char b'/' (String.◌∷◌ c s) ≡ false
    → child_id_of_uri (tasks_uri <> String.◌∷◌ c s) ≡ ok (String.◌∷◌ c s)
child_id_of_uri-tasks_uri c s h =
    let id = String.◌∷◌ c s in
    let (x, y, xs, pieces, last) = split-append b'/' collection "/" id refl h in
    let closed : ends_with b'/' (collection <> String.◌∷◌ "/" id) ≡ false =
      ends_with-append b'/' collection "/" id ∙ ends_with_of_piece b'/' id h in
    rw (tasks_uri-lem id)
      (child_id_of_uri-split (collection <> String.◌∷◌ "/" id) x y xs closed pieces ∙ ap ok last)

task-lem :
    (s : String) → "task" <> s ≡ String.◌∷◌ "t" (String.◌∷◌ "a" (String.◌∷◌ "s" (String.◌∷◌ "k" s)))
task-lem s = rw (append.cons, append.cons, append.cons, append.cons, append.nil)

-- So the ids that `CreateTaskUtil` makes are found again, if the generated part has no slash.
pub child_id_of_uri-task :
    (s : String)
    → has_char b'/' s ≡ false
    → child_id_of_uri (tasks_uri <> ("task" <> s)) ≡ ok ("task" <> s)
child_id_of_uri-task s h =
    rw (task-lem s)
      (child_id_of_uri-tasks_uri "t" (String.◌∷◌ "a" (String.◌∷◌ "s" (String.◌∷◌ "k" s))) h)
