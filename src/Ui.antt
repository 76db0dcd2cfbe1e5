-- ===== src/Ui.antt =====
-- ui/: the terminal interface's model of the list, its selection and its background scans.
pub mod Row
pub mod Items
pub mod View
pub mod Groups
pub mod Cursor
pub mod Pane
pub mod Confirm
pub mod Scans
mod Tests
