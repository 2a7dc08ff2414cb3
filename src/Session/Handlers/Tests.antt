-- ===== src/Session/Handlers/Tests.antt =====
-- The theorems on the session handlers at a system with two sessions, of which one may configure
-- users.
use hwmgmt_device_mgr_device.Base.{◌≡◌, refl, true, none, [], ◌∷◌, ◌⊎◌, arith}
use hwmgmt_device_mgr_device.Response.{Rpc, empty, view, create_generic_response}
use hwmgmt_device_mgr_device.Response.Messages.{
  status_ok, status_created, status_no_content, success, created, resource_removed,
}
use hwmgmt_device_mgr_device.Session.Model.{Session, Sessions, put_session}
use hwmgmt_device_mgr_device.Session.Operations.{check_session_time_out}
use hwmgmt_device_mgr_device.Session.CleanUp.{
  check_session_creation_credentials, expired_session_clean_up,
}
use hwmgmt_device_mgr_device.Session.Clock.{SteadyClock}
use hwmgmt_device_mgr_device.Session.Expiry.{Expired, expired_session_clean_up-Fate}
use hwmgmt_device_mgr_device.Session.Views.{View}
use hwmgmt_device_mgr_device.Session.Handlers.Access.{authorized_session, update_last_used_time}
use hwmgmt_device_mgr_device.Session.Handlers.Operations.{
  blank, SessionRequest, find_by_id, delete_found, delete_session,
}
use hwmgmt_device_mgr_device.Session.Handlers.Listing.{
  collection, visible_sessions, get_all_active_sessions,
}
use hwmgmt_device_mgr_device.Session.Handlers.Create.{open_session, create_new_session}
use hwmgmt_device_mgr_device.Session.Handlers.Opened.{Opened, create_new_session-Opened}
use hwmgmt_device_mgr_device.Session.Handlers.Deleted.{Deleted, delete_session-Deleted}
use hwmgmt_device_mgr_device.Session.Handlers.Visible.{Listed, get_all_active_sessions-Listed}
use hwmgmt_device_mgr_device.Session.Sample.{sample, sample_store, alice, one_session}

abbrev admin : Session
admin = record alice { id = "s2"; token = "t2"; user_name = "admin"; privileges = λ p. true }

abbrev two_sessions : Sessions
two_sessions = put_session admin one_session

abbrev delete_alice : SessionRequest
delete_alice = record { session_id = "s1"; session_token = "t2" }

abbrev by_alice : SessionRequest
by_alice = record { session_id = ""; session_token = "t1" }

abbrev deleted : Rpc View
deleted = record {
  status_code = status_no_content;
  status_message = resource_removed;
  header = [];
  body = empty;
}

delete_session-Deleted_example :
    Deleted sample sample_store delete_alice deleted two_sessions
      (delete_session sample delete_alice two_sessions).1
unfolding delete_session find_by_id delete_found check_session_time_out update_last_used_time
delete_session-Deleted_example =
    delete_session-Deleted sample sample_store delete_alice two_sessions {r = deleted} refl

abbrev shown : Rpc View
shown = record {
  status_code = status_ok;
  status_message = success;
  header = [];
  body = view (
      View.listing (
        collection (
          "/redfish/v1/SessionService/Sessions/s1" ∷ "/redfish/v1/SessionService/Sessions/s2"
          ∷ [])));
}

get_all_active_sessions-Listed_example :
    Listed sample sample_store (record { session_id = ""; session_token = "t2" }) shown two_sessions
unfolding get_all_active_sessions authorized_session visible_sessions check_session_time_out
    update_last_used_time
get_all_active_sessions-Listed_example =
    get_all_active_sessions-Listed sample sample_store
      (record { session_id = ""; session_token = "t2" }) two_sessions {r = shown} refl

abbrev idle : Sessions
idle = put_session (record alice { last_used_time = 10 }) two_sessions

abbrev steady : SteadyClock sample
steady = record {
  now = λ w. omega arith;
  get_session = λ token w. omega arith;
  delete_stored = λ x w. omega arith;
  get_all_session_keys = λ w. omega arith;
  set_last_clean_up = λ time w. omega arith;
}

expired_session_clean_up-Fate_example :
    ((expired_session_clean_up sample idle).1 "t1" ≡ idle "t1")
    ⊎ (Expired sample sample_store 100 "t1" idle
        × ((expired_session_clean_up sample idle).1 "t1" ≡ none))
expired_session_clean_up-Fate_example =
    expired_session_clean_up-Fate sample sample_store steady idle "t1"

abbrev opened : Rpc View
opened = record {
  status_code = status_created;
  status_message = created;
  header =
      ("Link", "</redfish/v1/SessionService/Sessions/u1/>; rel=self") ∷ ("X-Auth-Token", "u1") ∷ [];
  body = view (
      View.session (record {
        response = record blank {
          odata_type = "#SessionService.v1_1_8.SessionService";
          odata_id = "/redfish/v1/SessionService/Sessions/u1";
          id = "u1";
          name = "Session Service";
          message = "The resource has been created successfully";
          message_id = created;
          severity = "OK";
        };
        user_name = "alice";
      }));
}

create_new_session-Opened_example :
    Opened sample sample_store "secret" "u1" opened two_sessions
      (create_new_session sample "secret" two_sessions).1
unfolding create_new_session check_session_creation_credentials open_session create_generic_response
create_new_session-Opened_example =
    create_new_session-Opened sample sample_store "secret" two_sessions {r = opened} {id = "u1"}
      refl
