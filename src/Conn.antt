-- ===== src/Conn.antt =====
-- Parts of src/conn.rs: the admission budget, the ready queue, the pending bytes of a flow,
-- the view of a packet, and the flow tables of the manager.
pub mod Budget
pub mod Ready
pub mod Pending
pub mod Flow
pub mod Manager
