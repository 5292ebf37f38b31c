-- ===== src/Lib.antt =====
-- StockStack, the backend of a shop's product catalogue: administrators create, edit and publish
-- products; shoppers read them through a cache. A request of an administrator runs a method of the
-- product service in one database transaction and then invalidates the cache. A request of a
-- shopper passes a limit on requests and is answered from the cache, or, under a lock, from the
-- database.
--
-- Which file models what:
--   Domain            backend/app/catalog/domain.py: the enumerations and assert_transition.
--   Errors            backend/app/core/errors.py: AppError and _response.
--   Models            backend/app/catalog/models.py: the tables as lists of rows; inserts fail where
--                     a constraint does. What the columns can hold is in Models/Columns, and
--                     which bodies of requests fit them in Repository/Columns.
--   Schemas           backend/app/catalog/schemas.py: payloads after parsing, and their validation.
--   Repository        backend/app/catalog/repository.py: one function per method of
--                     ProductRepository; a session has the rows it sees and the committed rows.
--                     Repository/Batch is batch_update_status, Repository/Search is list
--                     (list_products).
--   FieldSchema       backend/app/catalog/field_schema.py: the errors of validation and their paths;
--                     FieldSchema/Attributes has validate_attributes, on what jsonschema reports,
--                     and FieldSchema/Url the format http-url, on what pydantic reads of a URL.
--   Service           backend/app/catalog/service.py: _view, _field_errors, the mapping of errors,
--                     commit and rollback; Service/Actions has one function per method of
--                     ProductService (update is update_product, batch_status is batch_status).
--                     Service/History puts writes in sequence.
--   Cache             backend/app/catalog/cache.py: Redis as an interface with laws, the keys, the
--                     lock and the sliding window (the two Lua scripts run as one step each).
--                     Cache/Memory is a Redis in memory, for the tests.
--   PublicService     backend/app/catalog/public_service.py: _cache_get and its helpers;
--                     PublicService/Load has _load (load_public), _query_db and detail
--                     (detail_public). Each call of Redis can be lost or late, others may act before
--                     it, and each query can fail. PublicService/Flights has the loads that
--                     requests share (_flights and _run_flight), as steps.
--   PublicRouter      backend/app/catalog/public_router.py: enforce_rate_limit, _client_ip (client_ip)
--                     and the route; PublicRouter/Ids is _uuid7 (parse_uuid7), with the standard
--                     library's UUID written out.
--   Uploads           backend/app/catalog/uploads.py: validate_image; Uploads/Storage has
--                     LocalImageStorage.save, on files as a function of their names, with the calls
--                     that fail, and Uploads/Root its __init__; Uploads/Route is upload_image of
--                     backend/app/catalog/router.py.
--   Auth              backend/app/auth/router.py, auth/service.py and core/security.py: login and
--                     require_admin. PyJWT and pwdlib are arguments.
--   Handlers          backend/app/core/errors.py: the handlers of errors; Handlers/Middleware has the
--                     middleware, between the routes and the handler of other exceptions.
--   Config            backend/app/core/config.py: the bounds of the settings, and the arguments that
--                     create_app of backend/app/main.py makes of them.
--   Routes            backend/app/catalog/router.py: a call per route but the upload's, behind
--                     require_admin, in front of the service, and answered by the handlers.
--   Repository/Catalogue  what update and batch_update_status promise, without tables and loops.
--   Seed              scripts/seed.py: the demo data (Seed/Data), the image and the loops of seed.
--   Migrations        backend/alembic/versions/0001_initial.py: upgrade and downgrade
--                     (Migrations/Initial), and what models.py declares (Migrations/Metadata), over
--                     an interface of Alembic's operations.
--   Metrics           backend/app/core/metrics.py: the middleware, around what an application sends.
--   Lifespan          backend/app/main.py: lifespan (shutdown), which waits for the tasks that
--                     _retry_invalidation of service.py runs, in any order of their turns.
--   Common, Json      lists, dictionaries, texts, computations with errors, and JSON values.
--   Samples           rows and payloads for the tests.
--
-- Numbers are unbounded, as in Python. A UUID is the number it stands for, a time a number, and a
-- text the list of its code points. New ids, tokens and random numbers are arguments. Two
-- loops are on fuel. The wait for a lock is given one more than the milliseconds of its budget, of
-- which every round takes at least one, so that it never runs out; the tasks that lifespan waits for
-- are given the rounds that they have left, two each.
--
-- Not modelled: FastAPI's and pydantic's parsing, SQLAlchemy's statements below the rows they
-- read and write, jsonschema, nh3, Redis itself and the expiry of its keys, serialization of
-- concurrent transactions (a row lock or an UPDATE is one step), the refusal of values that a
-- database column cannot hold, the parsing of addresses (ipaddress) and of URLs (pydantic), the
-- cancellation of tasks, and the environment of Alembic (env.py).
pub mod Common
pub mod Json
pub mod Domain
pub mod Errors
pub mod Models
pub mod Schemas
pub mod Repository
pub mod FieldSchema
pub mod Service
pub mod Cache
pub mod PublicService
pub mod PublicRouter
pub mod Uploads
pub mod Auth
pub mod Handlers
pub mod Config
pub mod Seed
pub mod Migrations
pub mod Routes
pub mod Metrics
pub mod Lifespan
pub mod Samples
