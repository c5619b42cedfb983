-- ===== src/Lib.antt =====
-- A model of the Go library msa-core, with theorems on its messaging client, its token service and
-- guards, its internationalisation, its base controller and middleware, its Redis client, its
-- repository and its polygons.
--
-- The parts and their files (source paths from the repository's root):
-- - Prelude: shared names; 64-bit integers that wrap around (Int), texts and the parts of packages
--   strings and strconv in use (Text), Go's errors (Result), and runs that may panic (Run).
-- - Rabbit: pkg/infrastructure/rabbitmq. Table is amqp091.Table with AMQPCarrier and cloneTable;
--   Publish is PublishWithOptions; Retry is what ConsumeWithOptions does with one delivery, as a list
--   of actions on the broker; Topology holds the declaring operations (Operations), SetupQueueTopology
--   (Setup) and redeclareTopology, as functions from the client and the calls made so far to an error
--   and the state after. Connection is the client's connection: NewRabbitMQClient, ensureChannel with
--   the loop that connects again, and Close. Subscription is the loop of ConsumeWithOptions around the
--   deliveries. Consumer is base_consumer.go with rabbitmq_message.go and PublishEventAsync.
-- - Context: the values that pkg/common/context_keys.go and i18n_helper.go put into a context.
-- - I18n: pkg/common/i18n.go and i18n_helper.go. Messages is the nested map, Manager the I18nManager
--   and the global variable, Locale is GetLocaleFromHeader.
-- - Response: pkg/common/base_response.go.
-- - Controller: pkg/common/base_controller.go. Reply answers, Query reads the query parameters,
--   Handlers and Paging wrap the service functions.
-- - Validation: pkg/common/validation_helper.go, and HandleValidation of the controller; in Uuid
--   IsValidUUID of pkg/helpers/validation_helper.go.
-- - Auth: pkg/models/auth_models.go (Claims), pkg/service/jwt_service.go (Service), and
--   pkg/middleware/jwt_auth_middleware.go and api_key_auth.go (Middleware), and VerifyToken of
--   pkg/helpers/jwt_helper.go (Helper).
-- - Redis: pkg/infrastructure/redis/redis.go. The methods are functions from the state of the server
--   to an outcome and the state after; Hashes, Structs and Keys are groups of methods, Methods the
--   interface RedisClient, and Taking the commands of GetDel one by one.
-- - Repository: pkg/infrastructure/repositories. A method is the statement that it has gorm run, and
--   what it makes of the report; Reads, Writes and Counts are groups of methods, and Transactions the
--   methods that take a transaction.
-- - Pipeline: pkg/middleware/response_handler.go, in Helper pkg/helpers/response_helper.go, and in
--   Tracing pkg/middleware/tracing_middleware.go.
-- - Geometry: pkg/helpers/geometry_helper.go.
-- - Storage: pkg/infrastructure/minio (Minio) and pkg/infrastructure/cloudinary (Cloudinary).
-- - Sessions: the token service of Auth with the client of Redis for its session store.
-- A function of the source is a definition of the same name in snake case; a method's receiver, where
-- it changes, is given and returned. The controller asks I18n for messages and passes the global
-- manager on; the guards ask the token service and put the principal into the context; the consumer
-- publishes through Publish.
--
-- Parameters: package jwt, the session store, the AMQP broker and the network, the Redis server with
-- go-redis, the database with gorm, the clients of MinIO and Cloudinary, c.JSON of echo, float64, the file system, the JSON encoder and
-- decoder, the propagator of the trace context and the clock. What a theorem needs of them is among
-- its hypotheses.
--
-- Choices: texts are valid UTF-8 and are lists of characters; int and int64 have 64 bits and wrap
-- around, conversions to int32 too; a Go map that is changed is an association list in which the
-- first entry of a key counts, and one that is only read is a function; spans, log lines and
-- timeouts are left out, but for the deadline of ensureChannel. Two definitions take fuel:
-- Rabbit.Retry.Redelivery.drain, which bounds the number of deliveries; poison-Parked holds for every
-- fuel from the number of deliveries that the limit of retries leaves; and Rabbit.Connection.reconnect,
-- whose turns each sleep for a hundred milliseconds or more, so that one turn for each hundred
-- milliseconds until the context ends, and one more, are enough.
--
-- Not modelled: the spans outside the tracing middleware, and the helpers that call a library
-- (hashing, HTTP requests, GenerateToken, binding).
pub mod Prelude
pub mod Rabbit
pub mod Context
pub mod I18n
pub mod Response
pub mod Controller
pub mod Auth
pub mod Validation
pub mod Redis
pub mod Repository
pub mod Geometry
pub mod Pipeline
pub mod Sessions
pub mod Storage
