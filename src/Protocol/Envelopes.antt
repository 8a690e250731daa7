-- ===== src/Protocol/Envelopes.antt =====
-- protocol.go: the envelopes that the client sends. `fresh` is the id that NewRequestID makes.
use soothe_client_go.Prelude.{String, some, ◌==◌, if◌then◌else◌}
use soothe_client_go.Json.{str, arr, nil, cons, Fields, end, field}
use soothe_client_go.Protocol.{Envelope, new_envelope}

-- NewRequestEnvelopeWithID
unfoldable pub new_request_envelope_with_id : String → Fields → String → String → Envelope
new_request_envelope_with_id method params id fresh = record (new_envelope "request") {
  proto = "1";
  method = method;
  params = some params;
  id = if id == "" then fresh else id;
}

-- NewNotificationEnvelope
unfoldable pub new_notification_envelope : String → Fields → Envelope
new_notification_envelope method params = record (new_envelope "notification") {
  proto = "1";
  method = method;
  params = some params;
}

-- NewSubscribeEnvelope
unfoldable pub new_subscribe_envelope : String → Fields → String → Envelope
new_subscribe_envelope method params fresh = record (new_envelope "subscribe") {
  proto = "1";
  method = method;
  params = some params;
  id = fresh;
}

-- NewUnsubscribeEnvelope
unfoldable pub new_unsubscribe_envelope : String → Envelope
new_unsubscribe_envelope id = record (new_envelope "unsubscribe") { proto = "1"; id = id }

-- NewConnectionInitEnvelope
unfoldable pub new_connection_init_envelope : Envelope
new_connection_init_envelope = record (new_envelope "connection_init") {
  proto = "1";
  params = some (
      field "client_version" (str "0.4.17") (
        field "client_name" (str "soothe-client-go") (
          field "accept_proto" (arr (cons (str "1") nil)) (
            field "capabilities"
              (arr (
                cons (str "streaming")
                  (cons (str "batch") (cons (str "heartbeat") (cons (str "receipts") nil)))))
              end))));
}

-- NewPingEnvelope, NewPongEnvelope, NewDisconnectEnvelope
unfoldable pub new_plain_envelope : String → Envelope
new_plain_envelope typ = record (new_envelope typ) { proto = "1" }
