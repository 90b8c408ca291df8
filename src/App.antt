-- ===== src/App.antt =====
-- internal/app: what is opened and closed from the start of the service to its end. The effects are a
-- trace of events; what the outside answers is an argument.
pub mod Topics
pub mod Ingest
pub mod Infra
pub mod Built
pub mod Used
pub mod GrpcMetrics
pub mod Routes
pub mod Counts
pub mod Balance
pub mod Lifecycle
use ingest.Prelude.{Bool, GoString, List, Option, false, nat_key, text_key, true, ◌==◌, ◌⊎◌}
use ingest.Kafka.Topics.{TopicSpec}
use ingest.Kafka.Client.{ConsumerOptions, ProducerOptions}

-- what holds a connection or goroutines
pub data Handle : Type 0 where
  mysql_handle : Handle
  click_house_handle : Handle
  producer_handle : Handle
  -- the hourly recorder of the statistics
  stats_handle : Handle
  -- the consumer client of a topic
  consumer_handle : GoString → Handle
  -- the asynchronous publisher of the evaluation scores
  publisher_handle : Handle

unfoldable pub handle_beq : Handle → Handle → Bool
handle_beq mysql_handle mysql_handle = true
handle_beq click_house_handle click_house_handle = true
handle_beq producer_handle producer_handle = true
handle_beq stats_handle stats_handle = true
handle_beq (consumer_handle s) (consumer_handle t) = s == t
handle_beq publisher_handle publisher_handle = true
handle_beq _ _ = false

pub data Event : Type 0 where
  opened : Handle → Event
  closed : Handle → Event
  ensured : List TopicSpec → Event

-- the errors of the group of actors, as far as they are told apart
pub data GroupError : Type 0 where
  -- an error that wraps `context.Canceled`
  canceled : GroupError
  -- an error that wraps `http.ErrServerClosed`
  server_closed : GroupError
  other_error : GoString → GroupError

-- What the outside answers: an error, or none.
pub record Outside : Type 0 where
  pub driver_config : Option GoString
  pub mysql_connector : Option GoString
  pub mysql_ping : Option GoString
  pub click_house_open : Option GoString
  pub click_house_ping : Option GoString
  pub ensure : List TopicSpec → Option GoString
  pub producer_client : ProducerOptions → Unit {0} ⊎ GoString
  pub consumer_client : ConsumerOptions → Unit {0} ⊎ GoString
  pub grpc_listen : GoString → Option GoString
  -- what `Run` of the group of actors returns
  pub group : Option GroupError
