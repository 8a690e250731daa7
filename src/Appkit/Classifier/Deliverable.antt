-- ===== src/Appkit/Classifier/Deliverable.antt =====
-- appkit/classifier.go: where the content of a deliverable outcome comes from.
use soothe_client_go.Prelude.{String, Option, none, some}
use soothe_client_go.Json.{Fields}
use soothe_client_go.Protocol.{Message, event, event_type}
use soothe_client_go.Appkit.Classifier.{ClassifierConfig}
use soothe_client_go.Appkit.Classifier.Process.{normalize_event_data}

abbrev pub with_type : String → Option Fields → Option (String × Fields)
with_type ns none = none
with_type ns (some data') = some (ns, data')

module _ (cfg : ClassifierConfig) where
  module _ (decode : String → Option Fields) where
    -- The type of an event and its data, as a map
    abbrev pub data_of : Message → Option (String × Fields)
    data_of (event m) = with_type (event_type m) (normalize_event_data cfg decode m.data')
    data_of _ = none
