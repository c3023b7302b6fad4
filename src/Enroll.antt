-- ===== src/Enroll.antt =====
-- webui/js/a3.js: the modal windows that add or edit an A3 or a host, or add an agent. They first test
-- the connection and then save; between the two, and while a request runs, the fields can be edited.
pub mod A3
pub mod Host
pub mod Agent
mod Tests
