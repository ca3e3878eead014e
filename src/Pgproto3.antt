-- ===== src/Pgproto3.antt =====
-- pgproto3: the messages of the PostgreSQL wire protocol, version 3, and the two ends of a
-- connection that send and receive them.
pub mod Message
pub mod Read
pub mod Bind
pub mod Parse
pub mod Execute
pub mod Describe
pub mod Close
pub mod Query
pub mod CopyFail
pub mod CopyData
pub mod GssResponse
pub mod SaslResponse
pub mod PasswordMessage
pub mod SaslInitialResponse
pub mod FunctionCall
pub mod Flush
pub mod Sync
pub mod Terminate
pub mod CopyDone
pub mod BindComplete
pub mod ParseComplete
pub mod CloseComplete
pub mod NoData
pub mod PortalSuspended
pub mod EmptyQueryResponse
pub mod DataRow
pub mod RowDescription
pub mod CommandComplete
pub mod ParameterDescription
pub mod ParameterStatus
pub mod ReadyForQuery
pub mod BackendKeyData
pub mod CopyInResponse
pub mod CopyOutResponse
pub mod CopyBothResponse
pub mod NotificationResponse
pub mod FunctionCallResponse
pub mod NegotiateProtocolVersion
pub mod Authentication
pub mod Startup
pub mod Decimal
pub mod ErrorResponse
pub mod FrontendMessage
pub mod BackendMessage
pub mod Source
pub mod Endpoint
pub mod Backend
pub mod Frontend
pub mod ChunkReader
pub mod Session
pub mod Tests
