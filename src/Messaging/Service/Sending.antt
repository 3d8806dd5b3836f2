-- ===== src/Messaging/Service/Sending.antt =====
-- messaging/service.ts: `trySendResponse`, the only place where a response is sent.
use Prim.Native.String
use fullwell.Prelude.{String, Bool, false, true, not, ◌&&◌, none, if◌then◌else◌, is_none, leb}
use fullwell.Messaging.Types.{
  Instant, is_response_ready, MessageEnvelopeRecord, ProviderIdentityLinkRecord, accepted,
}
use fullwell.Messaging.Delivery.{mark_response_sent}
use fullwell.Messaging.Receipts.{save_delivery_receipt}
use fullwell.Messaging.Service.World.{
  internal_error, MessagingServiceOptions, Platform, Action, ◌>>=◌, ◌>>◌, pure, guard, option_case,
  on_store, draw, decrypt, send_service_text, is_pre_cutoff,
}

-- The associated data by which the cipher binds a ciphertext to its place.
abbrev pub joined : String → String → String → String
joined prefix id suffix = String.◌++◌ prefix (String.◌++◌ id suffix)

abbrev pub inbound_associated_data : String → String
inbound_associated_data link_id = joined "provider-link:" link_id ":inbound"

abbrev pub destination_associated_data : String → String
destination_associated_data link_id = joined "provider-link:" link_id ":destination"

abbrev pub response_associated_data : String → String
response_associated_data envelope_id = joined "message:" envelope_id ":response"

abbrev pub host_session_associated_data : String → String
host_session_associated_data envelope_id = joined "message:" envelope_id ":host-session"

module _ (P : Platform) (o : MessagingServiceOptions) where
  -- Replies are on, the free service still runs, and so does the sender's service window.
  unfoldable pub may_send : MessageEnvelopeRecord → Instant → Bool
  unfolding is_pre_cutoff
  may_send e now =
      o.service_replies_enabled
      && is_pre_cutoff P o now
      && not (leb e.service_window_expires_at now)

  unfoldable pub send_response :
      ProviderIdentityLinkRecord → MessageEnvelopeRecord → String → Instant → Action Bool
  unfolding draw decrypt send_service_text
  send_response link e ciphertext now = do
    response ← decrypt P ciphertext (response_associated_data e.id)
    destination ← decrypt P link.destination_ciphertext (destination_associated_data link.id)
    delivery_id ←
        send_service_text P
          (record { destination = destination; text = response; request_id = e.request_id })
    receipt_id ← draw P "delivery"
    on_store (λ s. (
      tt,
      save_delivery_receipt
          (record {
            id = receipt_id;
            envelope_id = e.id;
            provider_delivery_hash = P.hash delivery_id;
            status = accepted;
            occurred_at = now;
            failure_code = none;
            created_at = now;
          })
          s,
    ))
    marked ← on_store (mark_response_sent e.id now)
    guard (not (is_none marked)) internal_error
    pure true

  unfoldable pub try_send_response :
      ProviderIdentityLinkRecord → MessageEnvelopeRecord → Instant → Action Bool
  unfolding may_send send_response
  try_send_response link e now = option_case e.response_ciphertext (pure false) (λ ciphertext.
      if is_response_ready e.state && may_send e now
      then send_response link e ciphertext now
      else pure false)
