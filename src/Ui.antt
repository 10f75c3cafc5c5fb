-- ===== src/Ui.antt =====
-- frontend/astiango-hub-ui/src: the web interface.
pub mod Menu
pub mod Tree
pub mod Request
pub mod Services
pub mod Layout
pub mod BaseStore
pub mod FileStore
pub mod Routes
pub mod Chat
pub mod LlmStream
pub mod Debounce
pub mod List
pub mod Form
pub mod Dependency
pub mod CheckboxTree
pub mod Database
mod Tests
