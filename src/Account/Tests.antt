-- ===== src/Account/Tests.antt =====
-- The deletion of the account of a household's second member.
use Prim.Native.String
use fullwell.Prelude.{◌+◌, ◌≡◌, refl, none, String, List, [], ◌∷◌, filter, find, any, arith, eq_iff}
use fullwell.Prelude.Exec.{ok}
use fullwell.Prelude.Text.{has_length, utf16_length, every_char}
use fullwell.Dict
use fullwell.OAuth.Types.{journal_read}
use fullwell.OAuth.Store.Keys.{AreKeyed}
use fullwell.Auth.Types.{is_opaque_id}
use fullwell.Auth.Store.{get_user_by_id, delete_user, revoke_session_of}
use fullwell.Household.Types.{owner, editor, ready, MembershipRecord}
use fullwell.Household.Store
use fullwell.Household.Store.{OperationalStore}
use fullwell.Repository.Memory.{
  head, commit, committed, audit_path, audit_event, take_chars, check_changes, write_changes,
  write_revisions,
}
use fullwell.Repository.Paths.{is_repository_path, has_double, ends_with, has_path_chars}
use fullwell.Account.Service.{
  World, Platform, read_clock, draw_request_id, former_member_document, commit_leave, is_sole_owner,
  update_members, leave_as, leave_household, leave_all, with_households, list_memberships,
  owns_alone, delete_account,
}
use fullwell.Account.Deletion.{IsGone, delete_account-IsGone}

abbrev joined : List String → String
joined [] = ""
joined (s ∷ ss) = String.◌++◌ s (joined ss)

abbrev platform : Platform
platform = record {
  now_at = λ n. 1000 + n;
  request_id_at = λ n. "req_0123456789abcdef";
  iso = λ at. "2026-01-02T03:04:05.000Z";
  trim = λ s. s;
  sort_ids = λ ids. ids;
  repository = record { digest = joined; json = λ s. s; stable_json = λ e. e.request_id };
}

abbrev member : MembershipRecord
member = record {
  household_id = "hsh_1";
  user_id = "usr_1";
  actor_id = "act_1";
  role = editor;
  projection_head = "h";
  removed_at = none;
}

abbrev world : World
world = record {
  auth = record {
    challenges = [];
    identities = [];
    users = ("usr_1", record { id = "usr_1"; actor_id = "act_1"; display_name = "Ada" }) ∷ [];
    passkeys = [];
    sessions = [];
  };
  oauth = record {
    clients = [];
    grants =
        (
          "grant_1",
          record {
            id = "grant_1";
            user_id = "usr_1";
            client_id = "client_1";
            scopes = journal_read ∷ [];
            resource = "https://fullwell.example";
            revoked_at = none;
          },
        )
        ∷ [];
    tokens = [];
    identities =
        ("usr_1", record { user_id = "usr_1"; actor_id = "act_1"; display_name = "Ada" }) ∷ [];
  };
  home = record {
    operational = record {
      households =
          (
            "hsh_1",
            record {
              id = "hsh_1";
              name = "Home";
              repository_head = "h";
              provisioning_state = ready;
              created_at = 0;
            },
          )
          ∷ [];
      memberships =
          (record { household_key = "hsh_1"; user_key = "usr_1"; membership = member })
          ∷ (record {
            household_key = "hsh_1";
            user_key = "usr_2";
            membership = record member { user_id = "usr_2"; actor_id = "act_2"; role = owner };
          })
          ∷ [];
      default_households = [];
      onboarding = [];
      export_downloads = [];
    };
    repositories = ("hsh_1", record { head = "h"; files = []; revisions = []; commits = [] }) ∷ [];
    reads = 0;
    draws = 0;
  };
}

world_keyed : AreKeyed world.oauth
unfolding Dict.get
world_keyed = record {
  clients = λ k v e. ground arith;
  grants = λ k v e. ground (arith, eq_iff "grant_1" k);
  tokens = λ k v e. ground arith;
  identities = λ k v e. ground (arith, eq_iff "usr_1" k);
}

deletion : (delete_account platform "usr_1" world).0 ≡ ok tt
unfolding delete_account owns_alone list_memberships with_households leave_all leave_household
    leave_as update_members is_sole_owner commit_leave former_member_document draw_request_id
    read_clock head commit committed audit_path audit_event take_chars check_changes write_changes
    write_revisions is_repository_path has_double ends_with has_path_chars is_opaque_id has_length
    utf16_length every_char get_user_by_id delete_user revoke_session_of Dict.get Dict.set
    Dict.delete filter find any Store.put_membership Store.stored_membership Store.get_membership
    Store.get_household Store.upsert_membership Store.update_household_head
    Store.list_household_memberships Store.leave_membership Store.active_owner_count
deletion = refl

delete_account-IsGone_example :
    IsGone platform "usr_1" world (delete_account platform "usr_1" world).1
delete_account-IsGone_example = delete_account-IsGone platform "usr_1" world world_keyed deletion
