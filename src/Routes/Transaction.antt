-- ===== src/Routes/Transaction.antt =====
-- server/app/main.py: the session of a request (`get_db`). What its handler writes is the transaction's
-- until a commit, and closing the session drops what is not committed.
use esp32_home_display.Prelude.{◌≡◌, arith}
use esp32_home_display.Database.{Session, Written, done, violates}

pub record Transaction (D : Type 0) : Type 0 where
  pub committed : D
  pub working : D

-- `session_factory()`
abbrev pub begin : {D : Type 0} → D → Transaction D
begin d = record { committed = d; working = d }

-- A statement that broke a constraint has written nothing.
unfoldable pub written_to : {D A : Type 0} → Transaction D → Written D A → Written (Transaction D) A
written_to t (done d a) = done (record t { working = d }) a
written_to t (violates constraint) = violates constraint

module _ {D A : Type 0} where
  pub written_to-done :
      (t t' : Transaction D) (w : Written D A) (a : A)
      → written_to t w ≡ done t' a
      → w ≡ done (t'.working) a
  unfolding written_to
  written_to-done t t' (done d b) a h = ground (arith, h)
  written_to-done t t' (violates c) a h = absurd (ground (arith, h))

  pub written_to-committed :
      (t t' : Transaction D) (w : Written D A) (a : A)
      → written_to t w ≡ done t' a
      → t'.committed ≡ t.committed
  unfolding written_to
  written_to-committed t t' (done d b) a h = ground (arith, h)
  written_to-committed t t' (violates c) a h = absurd (ground (arith, h))

-- The statements of a session, in its transaction.
abbrev pub in_transaction : {D : Type 0} → Session D → Session (Transaction D)
in_transaction db = record {
  sensors = λ t. db.sensors t.working;
  readings = λ t. db.readings t.working;
  insert_sensor = λ t mac name type. written_to t (db.insert_sensor t.working mac name type);
  rename_sensor = λ t s name. record t { working = db.rename_sensor t.working s name };
  upsert_row = λ t set test new. written_to t (db.upsert_row t.working set test new);
  commit = λ t. begin (db.commit t.working);
  insert_sensor_finds = λ t t' mac name type h.
      db.insert_sensor_finds t.working t'.working mac name type (written_to-done t t' _ tt h);
  insert_sensor_keeps = λ t t' mac name type other h.
      db.insert_sensor_keeps t.working t'.working mac name type other (written_to-done t t' _ tt h);
  insert_sensor_readings = λ t t' mac name type h.
      db.insert_sensor_readings t.working t'.working mac name type (written_to-done t t' _ tt h);
  rename_sensor_finds = λ t s name mac h. db.rename_sensor_finds t.working s name mac h;
  rename_sensor_readings = λ t s name. db.rename_sensor_readings t.working s name;
  upsert_row_finds = λ t t' set test new r mac timestamp h.
      db.upsert_row_finds t.working t'.working set test new r mac timestamp
        (written_to-done t t' _ r h);
  upsert_row_returns = λ t t' set test new r h.
      db.upsert_row_returns t.working t'.working set test new r (written_to-done t t' _ r h);
  upsert_row_sensors = λ t t' set test new r h.
      db.upsert_row_sensors t.working t'.working set test new r (written_to-done t t' _ r h);
  commit_sensors = λ t. db.commit_sensors t.working;
  commit_readings = λ t. db.commit_readings t.working;
}
