-- ===== src/Seed/Tests.antt =====
-- Runs of the script on an empty database and on one that has other products.
use stockstack.Common.{◌≡◌, refl, false, none, some, [], ◌∷◌}
use stockstack.Common.Exec.{ok, raise}
use stockstack.Common.Text.{Text}
use stockstack.Models.{Database, insert_schema, insert_product, insert_image}
use stockstack.Repository.{Session, integrity_error, schema_version_of, draw_id}
use stockstack.Uploads.Storage.{Files}
use stockstack.Samples.{session, template, uuid7}
use stockstack.Seed.Data.{schemas}
use stockstack.Seed.{DiskFaults, database_error, add_schemas, add_products, ensure_demo_image, seed}
use stockstack.Seed.Runs.{seed-seed}

abbrev bare : Database
bare = record { products = []; images = []; schemas = [] }

abbrev first_session : Session
first_session = record { db = bare; committed = bare; draws = 0; now = 5 }

abbrev no_files : Files
no_files name = none

abbrev disk : DiskFaults
disk = record { mkdir = false; write = none }

abbrev full_disk : DiskFaults
full_disk = record { mkdir = false; write = some 3 }

abbrev later : Session
later = record session {
  db = (seed uuid7 disk (no_files, first_session)).1.1.committed;
  committed = (seed uuid7 disk (no_files, first_session)).1.1.committed;
}

runs : (seed uuid7 disk (no_files, first_session)).0 ≡ ok tt
unfolding seed ensure_demo_image add_schemas add_products draw_id schema_version_of insert_schema
    insert_product insert_image
runs = refl

-- A template of another version is in the way of version 1, which would be active as well.
abbrev crowded : Session
crowded = record first_session {
  db = record bare { schemas = record template { version = 2 } ∷ [] };
}

conflicts : (seed uuid7 disk (no_files, crowded)).0 ≡ raise (database_error integrity_error)
unfolding seed ensure_demo_image add_schemas add_products draw_id schema_version_of insert_schema
    insert_product insert_image
conflicts = refl

seed-seed_example :
    let r = (seed uuid7 disk (no_files, first_session)).1 in
    seed uuid7 full_disk (r.0, later) ≡ (ok tt, (r.0, record later { committed = later.db }))
seed-seed_example = seed-seed uuid7 disk full_disk no_files first_session later runs refl refl
