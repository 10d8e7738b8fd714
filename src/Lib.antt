-- ===== src/Lib.antt =====
-- dlms-cosem: a client library for DLMS/COSEM smart meters, over HDLC on serial lines or over TCP.
--
-- The parts, from the line up. HdlcConnection collects bytes from the line, cuts frames at the flag
-- byte, lets the frame class that its state waits for parse them, and keeps the sequence numbers of
-- both ends. A frame carries its length, two addresses, a control field and check sequences. Over
-- TCP the wrapper takes the place of HDLC. The payload is an xDLMS APDU, such as a response of the
-- GET service, and DlmsConnectionState says which APDU may come next. DlmsConnection protects
-- what it sends and checks what it receives, counting both.
--
-- Files, each with the code that it models (paths from the repository's root):
--   Prelude: the results and exceptions of Python code, bytes, slices and int.to_bytes
--   Crc/Defs: CRCCCITT of dlms_cosem/crc.py
--   Hdlc/Validators: dlms_cosem/hdlc/validators.py
--   Hdlc/Fields: the control fields and the format field of dlms_cosem/hdlc/fields.py, a module each
--   Hdlc/Address/Defs, Hdlc/Address/Parse: HdlcAddress of dlms_cosem/hdlc/address.py
--   Hdlc/Frames/Defs, Hdlc/Frames/Parse: the frame classes of dlms_cosem/hdlc/frames.py, as one
--     record with the class as a field; `to_bytes`, and `from_bytes` per class
--   Hdlc/State: dlms_cosem/hdlc/state.py
--   Hdlc/Connection/Defs: HdlcConnection of dlms_cosem/hdlc/connection.py
--   Wrapper/Defs: dlms_cosem/protocol/wrappers.py, and TcpTransport.wrap and recv_response of
--     dlms_cosem/io.py
--   Association/State: dlms_cosem/state.py
--   Data/VariableInteger: the variable integer of dlms_cosem/dlms_data.py
--   Data/Types, Data/Conversion, Data/Parser: the classes of dlms_cosem/dlms_data.py with tags and
--     lengths, `from_bytes` and `to_bytes`, and DlmsDataParser
--   Xdlms/InvokeId: dlms_cosem/protocol/xdlms/invoke_id_and_priority.py
--   Xdlms/Enumerations, Xdlms/GetResponse/Kind: enumerations of dlms_cosem/enumerations.py
--   Xdlms/GetResponse/Defs, Xdlms/GetResponse/Classes: the responses and the response factory of
--     dlms_cosem/protocol/xdlms/get.py
--   Xdlms/ExceptionResponse: dlms_cosem/protocol/xdlms/exception_response.py
--   Cosem/Interface, Cosem/Obis, Cosem/Method: CosemInterface, dlms_cosem/cosem/obis.py and
--     dlms_cosem/cosem/base.py
--   Cosem/Descriptors, Cosem/Selection: dlms_cosem/cosem/selective_access.py, without the bytes of a
--     range, and dlms_cosem/cosem/attribute_with_selection.py
--   Xdlms/GetRequest: the requests and their factory of dlms_cosem/protocol/xdlms/get.py
--   Xdlms/Action: dlms_cosem/protocol/xdlms/action.py, with its enumerations
--   Xdlms/Set: dlms_cosem/protocol/xdlms/set.py, with its enumerations
--   Security/Control, Security/Ciphers, Security/Methods: SecurityControlField, the ciphers and the
--     authentication methods of dlms_cosem/security.py
--   Dlms/Authentication: the HLS exchange of these methods, which reads the connection
--   Dlms/Apdu, Dlms/Connection, Dlms/Operations: DlmsConnection of dlms_cosem/connection.py, its
--     state and the APDUs as it sees them, the protection of APDUs, and `send`, `receive_data` and
--     `next_event`; Dlms/Calls: these in any order, and what the single changes must keep
-- The other files hold the lemmas and theorems about these, and Examples runs them on concrete data.
--
-- Conventions. Bytes are lists of naturals; where a value must fit a byte, that is a hypothesis or a
-- check of int.to_bytes (OverflowError). Code that may raise has type Result, and a method that
-- changes its object returns the new object beside the result, also where it raises. Integers are
-- naturals, but for signed DLMS data: negative arguments are left out, with the tests that refuse
-- them. Loops are recursion on
-- the list they run over, or on the number of rounds. The search for the number of bytes in the
-- variable integer runs on the integer itself as fuel, which is more than the bytes it has. The
-- parser of DLMS data has the depth of Python's stack as fuel, and raises RecursionError without; its
-- outer loop counts rounds, and a loop that still runs then has no result.
--
-- Parameters: the `recv` of an io (a socket or a serial line), the parser of GetResponseWithList, the
-- cryptography package (AES-GCM, AES key wrap, AES-ECB), the struct module on floats, the readers of
-- dates, and for DlmsConnection the reading and writing of APDUs. The bytes of a RangeDescriptor are
-- a parameter too, of which nothing is assumed.
-- Not modelled: logging, I/O, the ACSE and the other xDLMS APDUs, the conversion of DLMS data to
-- Python values, range descriptors and the other COSEM objects, clocks, the client and the parsers.

pub mod Prelude
pub mod Crc
pub mod Hdlc
pub mod Wrapper
pub mod Association
pub mod Data
pub mod Cosem
pub mod Xdlms
pub mod Security
pub mod Dlms
pub mod Examples
