-- ===== src/Task/Persisted/Tests.antt =====
-- Tasks in the sample database, under a codec that keeps only their ids.
use hwmgmt_device_mgr_device.Base.{String, ◌≡◌, refl, some, none, pos}
use hwmgmt_device_mgr_device.Base.Exec.{ok}
use hwmgmt_device_mgr_device.Persistence.Contents.{put_key, Keys}
use hwmgmt_device_mgr_device.Persistence.Redis.{on_disk}
use hwmgmt_device_mgr_device.Persistence.Connections.{Clients, ensure_pool, reset_if_nil}
use hwmgmt_device_mgr_device.Persistence.Sample.{
  sample_redis, sample_database, pools, pools-IsFor, pool_at, clients_of,
}
use hwmgmt_device_mgr_device.Task.Database.{
  Codec, persist_task, update_task_status, get_task_status,
}
use hwmgmt_device_mgr_device.Task.Persisted.Read.{IsOpen}
use hwmgmt_device_mgr_device.Task.Persisted.Written.{
  persist_task-get_task_status, update_task_status-get_task_status,
}
use hwmgmt_device_mgr_device.Task.Sample.{task1}

abbrev codec : Codec
codec = record {
  marshal = λ t. ok t.id;
  unmarshal = λ s. ok (record task1 { id = s });
  time_text = λ n. "now";
  unix_nano = λ n. pos n;
}

abbrev clients : Keys → Clients sample_redis
clients w = clients_of (some (pool_at "10.0.0.1")) w

clients-IsOpen : (w : Keys) → IsOpen sample_database codec (clients w)
clients-IsOpen w = record {
  pools = pools "10.0.0.9" (some (pool_at "10.0.0.1"));
  reader = pool_at "10.0.0.9";
  writer = pool_at "10.0.0.1";
  held = refl;
  reads = refl;
  writes = refl;
  leads = pools-IsFor "10.0.0.9" (some (pool_at "10.0.0.1"));
}

abbrev stored : Keys
stored = put_key "task:task1" "task1" (λ k. none)

reads_back : (text : String) → codec.marshal task1 ≡ ok text → codec.unmarshal text ≡ ok task1
reads_back text h = cc

persist_task-get_task_status_example : record task1 { id = "task1" } ≡ task1
unfolding persist_task get_task_status ensure_pool reset_if_nil
persist_task-get_task_status_example =
    persist_task-get_task_status sample_database codec task1 (record task1 { id = "task1" })
      (clients (λ k. none)) on_disk (clients-IsOpen (λ k. none)) reads_back refl refl

update_task_status-get_task_status_example : record task1 { id = "task1" } ≡ task1
unfolding update_task_status get_task_status ensure_pool reset_if_nil
update_task_status-get_task_status_example =
    update_task_status-get_task_status sample_database codec task1 (record task1 { id = "task1" })
      (clients stored) on_disk (clients-IsOpen stored) reads_back refl refl
