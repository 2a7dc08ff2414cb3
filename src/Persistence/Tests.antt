-- ===== src/Persistence/Tests.antt =====
-- The persistence manager over the sample database.
use hwmgmt_device_mgr_device.Base.{String, ◌≡◌, refl, some, none, arith}
use hwmgmt_device_mgr_device.Base.Exec.{Outcome, ok}
use hwmgmt_device_mgr_device.Persistence.Sample.{
  sample_redis, sample_database, pools, pools-IsFor, pool_at, one_record, client_of, clients_of,
  sample_conf, different,
}
use hwmgmt_device_mgr_device.Persistence.Steps.{updates, run}
use hwmgmt_device_mgr_device.Persistence.Puts.{Refined}
use hwmgmt_device_mgr_device.Persistence.Writes.{run-Refined}
use hwmgmt_device_mgr_device.Persistence.Records.{update, read, write, create}
use hwmgmt_device_mgr_device.Persistence.Contents.{put_key}
use hwmgmt_device_mgr_device.Persistence.Access.{is_db_connect_error}
use hwmgmt_device_mgr_device.Persistence.Overwrites.{create-put_key}
use hwmgmt_device_mgr_device.Persistence.Recovery.{Named, WritesTo, get_db_connection-WritesTo}
use hwmgmt_device_mgr_device.Persistence.Redis.{in_memory, ConnPool}
use hwmgmt_device_mgr_device.Persistence.Connections.{get_db_connection, the_pool, config_of}
use hwmgmt_device_mgr_device.Persistence.Updates.{Score, index_entry, a_string}
use hwmgmt_device_mgr_device.Persistence.Indexes.{id_part}
use hwmgmt_device_mgr_device.Persistence.Entries.{index_entry-id_part, index_entry-misread}
use hwmgmt_device_mgr_device.Base.Text.{split_colons}

abbrev as_is : String → Outcome String String
as_is s = ok s

run-Refined_example :
    Refined as_is sample_database
      (updates "task" "t1" "new")
      (client_of "10.0.0.9" (some (pool_at "10.0.0.1")))
      (run as_is sample_redis
        (updates "task" "t1" "new")
        (client_of "10.0.0.9" (some (pool_at "10.0.0.1"))))
run-Refined_example =
    run-Refined as_is sample_database (updates "task" "t1" "new")
      (client_of "10.0.0.9" (some (pool_at "10.0.0.1")))
      (pools-IsFor "10.0.0.9" (some (pool_at "10.0.0.1")))

-- The update of the record has been done.
update_test :
    (update sample_redis as_is "task" "t1" "new"
        (client_of "10.0.0.9" (some (pool_at "10.0.0.1")))).1.world
      "task:t1"
    ≡ some "new"
unfolding update read write
update_test = refl

create-put_key_example :
    ((create sample_redis as_is "task" "t1" "new" (client_of "slow" (some (pool_at "10.0.0.1")))).0
      ≡ ok tt)
    × ((create sample_redis as_is "task" "t1" "new"
          (client_of "slow" (some (pool_at "10.0.0.1")))).1.world
        ≡ put_key "task:t1" "new" one_record)
unfolding is_db_connect_error
create-put_key_example =
    create-put_key as_is sample_database "task" "t1" "new" "new"
      (client_of "slow" (some (pool_at "10.0.0.1"))) (pool_at "slow") (pool_at "10.0.0.1")
      "i/o timeout" (pools-IsFor "slow" (some (pool_at "10.0.0.1"))) refl refl refl refl refl refl
      refl

abbrev named : Named sample_redis (config_of sample_conf in_memory) "10.0.0.1" 0 one_record
named = record {
  in_time = omega arith;
  before = λ i h. absurd (omega arith);
  new = (different "10.0.0.2" "" refl, different "10.0.0.2" "10.0.0.1" refl);
}

get_db_connection-WritesTo_example :
    (p' : ConnPool) × ((get_db_connection sample_redis in_memory (clients_of none one_record)).0
      ≡ ok p')
    × (the_pool sample_redis in_memory
          (get_db_connection sample_redis in_memory (clients_of none one_record)).1
        ≡ some p')
    × WritesTo (some (pool_at "10.0.0.9")) ("10.0.0.2", "6379") p'
get_db_connection-WritesTo_example =
    get_db_connection-WritesTo sample_redis in_memory (clients_of none one_record)
      (pools "10.0.0.9" none) (pool_at "10.0.0.9") 0 refl refl refl refl named

index_entry-id_part_example :
    (e : Score sample_redis × String) × (index_entry sample_redis "u1" (a_string "disk") ≡ ok e)
    × (id_part e.1 ≡ ok "u1")
unfolding split_colons
index_entry-id_part_example = index_entry-id_part sample_redis "u1" (a_string "disk") refl refl

index_entry-misread_example :
    (e : Score sample_redis × String) × (index_entry sample_redis "u1" (a_string "disk::ssd")
      ≡ ok e)
    × (id_part e.1 ≡ ok "ssd")
index_entry-misread_example =
    index_entry-misread sample_redis "u1" "disk::ssd" "disk" "ssd" refl refl refl
