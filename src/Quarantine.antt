-- ===== src/Quarantine.antt =====
-- src/quarantine/: the tables of src/quarantine/store.rs, the control plane of
-- src/quarantine/ipc.rs, the manager of src/quarantine/mod.rs and the command line's parsers of
-- src/quarantine/cli/parsers.rs.
pub mod Tests
pub mod Net
pub mod Store
pub mod Export
pub mod Targets
pub mod Csv
pub mod Ipc
pub mod Offline
pub mod Ingest
pub mod Commands
pub mod Manager
