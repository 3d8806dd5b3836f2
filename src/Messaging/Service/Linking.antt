-- ===== src/Messaging/Service/Linking.antt =====
-- messaging/service.ts: the linking of a WhatsApp identity to a runner's device.
use fullwell.Prelude.{
  ◌+◌, ◌*◌, String, Bool, false, not, ◌&&◌, ◌||◌, Option, none, some, ◌==◌, if◌then◌else◌, is_none,
  leb, ltb,
}
use Prim.Native.Char.{code}
use Prim.Native.String
use fullwell.Prelude.Exec.{ok, err}
use fullwell.Prelude.Text.{has_length, every_char, is_alnum}
use fullwell.Prelude.{nat_eq}
use fullwell.Auth.Types.{is_opaque_id}
use fullwell.Household.Types.{Principal}
use fullwell.Messaging.Types.{
  Instant, ProviderIdentityLinkRecord, ProviderLinkChallengeRecord, RunnerDeviceRecord,
}
use fullwell.Messaging.Store.{
  get_device, find_current_link_for_user, revoke_provider_link, save_link_challenge,
  consume_link_challenge, create_provider_link, confirm_provider_link, get_provider_link,
}
use fullwell.Messaging.Service.World.{
  channel_disabled, forbidden, validation_failed, MessagingServiceOptions, Platform, Action, ◌>>=◌,
  ◌>>◌, pure, throw, guard, ask, option_case, on_store, try_store, ask_store, parse, read_clock,
  draw, draw_token, draw_id, encrypt, send_service_text, is_pre_cutoff, require_pre_cutoff,
  require_membership, require_device,
}
use fullwell.Messaging.Service.Sending.{destination_associated_data}

-- WhatsAppLinkRequestSchema
pub record WhatsAppLinkRequest : Type 0 where
  pub household_id : String
  pub device_id : String

pub record WhatsAppLinkResult : Type 0 where
  pub expires_at : Instant
  pub contact_url : String

abbrev pub link_prefix : String
link_prefix = "FULLWELL LINK "

-- ^[A-Za-z0-9_-]{43}$
unfoldable pub is_link_token : String → Bool
is_link_token s =
    has_length 43 43 s && every_char (λ c. is_alnum c || nat_eq c b'_' || nat_eq c b'-') s

-- text.startsWith(prefix), and what follows on the prefix
unfoldable pub after_prefix : String → String → Option String
after_prefix String.[] s = some s
after_prefix (String.◌∷◌ p prefix) String.[] = none
after_prefix (String.◌∷◌ p prefix) (String.◌∷◌ c s) =
    let rest = after_prefix prefix s in if nat_eq (code p) (code c) then rest else none

unfoldable pub parse_link_token : String → Option String
unfolding after_prefix is_link_token
parse_link_token text = elim (after_prefix link_prefix text) [
  | none ↦ none
  | some token ↦ if is_link_token token then some token else none
]

-- A link that waits for its confirmation past its time.
abbrev pub is_lapsed : Instant → ProviderIdentityLinkRecord → Bool
is_lapsed now l = is_none l.confirmed_at && leb l.confirmation_expires_at now

-- A challenge's device, where it still is the one that the challenge was made for.
abbrev pub is_device_of : ProviderLinkChallengeRecord → Option RunnerDeviceRecord → Bool
is_device_of c none = false
is_device_of c (some d) =
    d.user_id == c.user_id && d.household_id == c.household_id && is_none d.revoked_at

pub data LinkOutcome : Type 0 where
  link_pending ignored : LinkOutcome

-- A link that the principal may confirm.
abbrev pub is_pending_of : Principal → ProviderIdentityLinkRecord → Bool
is_pending_of p l = l.user_id == p.user_id && is_none l.revoked_at && is_none l.confirmed_at

module _ (P : Platform) (o : MessagingServiceOptions) where
  -- A current link gives way only when its confirmation has lapsed.
  unfoldable pub clear_current : Principal → Instant → Action (Unit {0})
  clear_current p now = do
    existing ← ask_store (find_current_link_for_user p.user_id)
    option_case existing (pure tt) (λ l.
        if is_lapsed now l
        then (on_store (revoke_provider_link p.user_id now) >> pure tt)
        else throw validation_failed)

  unfoldable pub create_link_challenge :
      Principal → String → WhatsAppLinkRequest → Action WhatsAppLinkResult
  unfolding require_pre_cutoff is_opaque_id require_membership require_device read_clock
      clear_current draw_token draw
  create_link_challenge p raw_session_token i = do
    guard o.linking_enabled channel_disabled
    require_pre_cutoff P o
    parse (is_opaque_id "hsh_" i.household_id && is_opaque_id "dev_" i.device_id)
    require_membership p i.household_id
    device ← require_device p i.device_id
    guard (device.household_id == i.household_id) forbidden
    now ← read_clock P
    clear_current p now
    token ← draw_token P
    guard o.intake_enabled channel_disabled
    id ← draw P "challenge"
    on_store (λ s. (
      tt,
      save_link_challenge
          (record {
            id = id;
            user_id = p.user_id;
            household_id = i.household_id;
            runner_device_id = i.device_id;
            token_hash = P.hash token;
            browser_binding_hash = P.hash raw_session_token;
            expires_at = now + 10 * 60000;
            consumed_at = none;
            created_at = now;
          })
          s,
    ))
    pure (record {
      expires_at = now + 10 * 60000;
      contact_url = P.contact_url_with (String.◌++◌ link_prefix token);
    })

  -- The text that asks for the confirmation.
  unfoldable pub greet : String → Action (Unit {0})
  unfolding draw_id send_service_text
  greet sender = do
    request_id ← draw_id P "req" "req_"
    send_service_text P (record {
      destination = sender;
      text = "Return to your Fullwell Account page to confirm this WhatsApp connection.";
      request_id = request_id;
    })
    pure tt

  unfoldable pub link_identity :
      String → ProviderLinkChallengeRecord → Instant → Instant → Action LinkOutcome
  unfolding draw_id encrypt greet is_pre_cutoff
  link_identity sender c now service_window_expires_at = do
    link_id ← draw_id P "lnk" "lnk_"
    destination ← encrypt P sender (destination_associated_data link_id)
    try_store (
        create_provider_link (record {
          id = link_id;
          user_id = c.user_id;
          household_id = c.household_id;
          runner_device_id = c.runner_device_id;
          provider_identity_hash = P.hash sender;
          destination_ciphertext = destination;
          browser_binding_hash = some c.browser_binding_hash;
          confirmation_expires_at = c.expires_at;
          confirmed_at = none;
          linked_at = now;
          revoked_at = none;
          updated_at = now;
        }))
    if o.service_replies_enabled && ltb now service_window_expires_at && is_pre_cutoff P o now
        then greet sender
        else pure tt
    pure link_pending

  unfoldable pub consume_link_code : String → String → Instant → Instant → Action LinkOutcome
  unfolding link_identity
  consume_link_code sender token now service_window_expires_at = do
    challenge ← on_store (consume_link_challenge (P.hash token) now)
    w ← ask (λ w. w)
    option_case challenge (pure ignored) (λ c.
        if w.is_active_member c.user_id c.household_id
          && is_device_of c (get_device c.runner_device_id w.store)
        then link_identity sender c now service_window_expires_at
        else pure ignored)

  -- The link, where the principal may confirm it.
  unfoldable pub require_pending_link : Principal → String → Action ProviderIdentityLinkRecord
  require_pending_link p link_id w = (
    elim (get_provider_link link_id w.store) [
      | none ↦ err forbidden
      | some l ↦ if is_pending_of p l then ok l else err forbidden
    ],
    w,
  )

  unfoldable pub confirm_link : Principal → String → String → Action (Unit {0})
  unfolding require_pre_cutoff is_opaque_id require_pending_link require_membership read_clock
  confirm_link p raw_session_token link_id = do
    require_pre_cutoff P o
    parse (is_opaque_id "lnk_" link_id)
    link ← require_pending_link p link_id
    require_membership p link.household_id
    now ← read_clock P
    confirmed ← on_store (confirm_provider_link p.user_id link_id (P.hash raw_session_token) now)
    guard (not (is_none confirmed)) forbidden
