-- ===== src/Lib.antt =====
-- The server of the home display (server/app/) and its command-line tools (tools/): readings of
-- household sensors are ingested, stored, queried and served, a humidifier is controlled, and the
-- sensors' own histories are read over Bluetooth.
--
-- How the parts fit together. A request comes to a route of server/app/main.py, which stands behind a
-- check of its key or session and a rate limiter. A client uploads readings one by one
-- (`ingest_reading` of server/app/service.py) or in bulk (`bulk_result_counts`), after it has asked
-- which stretches of time are missing (`get_or_create_sensors_with_sync_state`); the dashboard queries
-- what is stored (`fetch_readings`), what the plant monitor has (`fetch_plant_readings`,
-- `latest_v2_entries`), the weather and the predictions made from both. All of them read and write two
-- tables through a session of the database. The humidifier's controller is a program of its own.
--
-- The files, and the code that each is about (paths from the root of the repository):
--   Prelude, Text, Float, Dict, Result: numbers, lists and tests on native numbers, Python's
--     strings, floats and dictionaries, and the exceptions of server/app/errors.py as results;
--   Arithmetic: the operations on floats that may raise;
--   Database: server/app/models.py and the statements that the server issues, as an interface of
--     operations and their documented laws; Database/Memory is an instance on lists of rows, and
--     Database/Keeps is about what a call leaves alone;
--   Common: server/app/common.py and server/app/sensor_spec.py, the checks of ranges, MAC addresses
--     and timestamps; Switchbot: the reading model of server/app/switchbot.py;
--   Ingest, with Merge, Store, Undone, Classify and Repeat: one reading of server/app/service.py, from its
--     preparation over the upsert to the verdict; Bulk, with Counts and Errors: a bulk upload, with a
--     savepoint for each item;
--   Sync, with Gaps, Silence, Steps and Cap: the intervals without readings, and the caps on their
--     number;
--   Query, with Order, Page, Window, Latest and Newest: the pages and the windows of stored readings;
--   RateLimit, with Calls, Window and Retry: the token bucket of server/app/api_limits.py and the dependency
--     that turns a refusal into a 429 response;
--   Access, with Guards, Buckets and Cookies: the checks of keys and sessions of server/app/main.py, its
--     five limiters, login and logout; Routes, with Transaction, Handlers, Untouched, Keyless and
--     Forecasts: its routes, each with its guard, the validation of its payload, its handler and the
--     session that the handler runs in;
--   Plants, with Slugs and Latest: the plant sensors of server/app/config.py and the entries of
--     server/app/plant_proxy.py; Plants/Readings, with Sorted, Rows and Served: its readings of one sensor;
--     Plants/Meters: its answer for the device;
--   Weather, with Merge, Sorted and Endpoint: server/app/openmeteo.py, the points that are put together,
--     and the route with its cache; Predict, with Fit, Route, Hours, Ascending, Training, Range and
--     Answer: server/app/predict.py;
--   Settings, with Checks and Accepted: `validate_config` of server/app/config.py, and, with Load and
--     Environment, its `load_config`;
--   Levoit, with Decision, Runner and Run: server/app/levoit_controller.py, levoit_runner.py and
--     levoit_api_client.py, one run of the humidifier's controller; Vesync, with Client, Closed,
--     Applied, Excused and Outcome: server/app/levoit_vesync.py, the calls that it makes of its library;
--   History, with Wire, Plan and Pages: tools/switchbot_history_probe.py, the bytes of a meter's history
--     and the plan of the pages; History/Arguments, Labels and Options: the values of its command
--     line; Decoders, with Signed and Scan: tools/switchbot.py and tools/xiaomi.py.
-- Each component has a file Tests with runs on concrete inputs.
--
-- How state is modelled. What computes with the database takes a database and gives a result and the
-- database that is left (`Exec` of Result), with a `do` block for the order of the calls; the store
-- of the rate limiter and the state of the humidifier are passed on the same way. The clock is an
-- argument. PostgreSQL is the parameter `Session`: its laws say what an insert, a rename and an
-- upsert leave under each key and what they return, and which constraint a refused one names. The
-- services commit where the source does. A route runs its handler in a `Transaction`, which keeps what
-- is committed apart from what is written; when the session is closed, only the former is left.
-- Requests that run at once are sequences of steps: a call of the rate limiter is one step, because
-- of its lock, and its clock readings come in any order.
--
-- Numbers. Integers are unbounded in Python and here. A finite float is a whole number of units of
-- 2 ^ -1074, so comparisons are exact; not-a-number and the infinities are there. The token bucket
-- and the sizes of the time buckets are computed exactly where the source rounds floats, so that what
-- is said of a bucket is said up to that rounding. Elsewhere floating-point operations are parameters,
-- of which a division and an exponential may raise. Timestamps are in microseconds since the year 1, and a byte is a number below 256.
--
-- Loops are structural recursion on the list that they walk. Only the loop of the page plan runs on
-- fuel: one more than the number of stored samples is enough if a page holds at least one sample,
-- and with pages of none no fuel is.
--
-- Parameters. What comes from other programs and from libraries is an argument: what the plant
-- monitor and Open-Meteo answer, what pydantic makes of a raw item or of a value, how pyvesync answers or raises at
-- each call, the ridge regression and floating-point arithmetic, how Python prints
-- a date and reads a time, and the order of names in the database.
--
-- Not modelled: FastAPI and the signature of the session cookie, the clients of HTTP and Bluetooth,
-- logging, argparse, the parsing of JSON, the migrations, the dashboard's
-- JavaScript, and the C++ program of the display itself (src/).
pub mod Access
pub mod Arithmetic
pub mod Bulk
pub mod Common
pub mod Database
pub mod Decoders
pub mod Dict
pub mod Float
pub mod History
pub mod Ingest
pub mod Levoit
pub mod Plants
pub mod Predict
pub mod Prelude
pub mod Query
pub mod RateLimit
pub mod Result
pub mod Routes
pub mod Settings
pub mod Switchbot
pub mod Sync
pub mod Text
pub mod Vesync
pub mod Weather
