-- ===== src/Appkit/Frame.antt =====
-- appkit/events.go: the frame inside a `next` envelope, and its namespace.
use soothe_client_go.Prelude.{◌==◌, if◌then◌else◌}
use soothe_client_go.Json.{Value, arr, obj, Items, nil, Fields, get, text_of}

-- The frame in the payload, where there is one
unfoldable pub payload_frame : Value → Fields → Fields
payload_frame (obj payload) event = elim (get "data" payload) [ obj frame ↦ frame | _ ↦ event ]
payload_frame _ event = event

-- UnwrapNext
unfoldable pub unwrap_next : Fields → Fields
unfolding payload_frame
unwrap_next event =
    if text_of "type" event == "next" then payload_frame (get "payload" event) event else event

-- asNamespace; decoded JSON has no []string
unfoldable pub as_namespace : Value → Items
as_namespace (arr items) = items
as_namespace _ = nil
