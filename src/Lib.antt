-- ===== src/Lib.antt =====
-- Network_Omok: an omok (five in a row) server and its network library, under Project/.
--
-- The server (DXServer) keeps one User object for every session of the network library (NetLib).
-- A packet that a session has received goes through PacketParsing to a handler of the user, and the
-- handler changes the two tables of the server, PlayerManager and RoomManager, and the players and
-- rooms in them, sends packets to one session or to all, and calls stored procedures. A thread
-- removes the sessions that have lost their connection, and EventBeforeDelete cleans up behind
-- their users. A client (DXClient) turns the packets of the server into handlers of ClientServer,
-- which change its players, its game scenes and the rows of the rooms; what the keyboard and the
-- mouse do to its dialogs and buttons (CoreLib) sends requests.
--
-- Which file models what:
--   Protocol            OmokProtocol/OmokProtocol.h: protocol numbers, return codes, scenes
--   Omok                DXServer/Player.cpp: the board, PutStone, ClearOmok, CheckFinish and the
--                       four loops that it calls, as one loop over a record of what they differ in
--   Omok/Hits, Scan, Lines, Finish, Edge   what the loops decide, and where they leave the array
--   Server              the state: Player, Room, User, the tables, what has been sent; the monad
--   Server/Players      Player.cpp (statistics) and PlayerManager.cpp
--   Server/Rooms        Room.cpp, Room.h and RoomManager.cpp
--   Server/Send         Session.cpp (SendPacket, SendPacketToOtherUser, BroadCast) and
--                       User.cpp (BroadCastExceptMe)
--   Server/Login        User.cpp (account, login, the two lists) and OdbcContents.cpp
--   Server/Requests     User.cpp (create a room, enter it, ready)
--   Server/Game         User.cpp (start, put a stone, the end of a game)
--   Server/Leave        User.cpp (leave a room, the end of a session)
--   Server/Dispatch     User.cpp (m_executeFunc, PacketParsing)
--   Server/Sessions     SessionManager and RemoveSession: sessions come and go
--   Server/Dispatch/Invariant   the runs of the whole server, and their invariant
--   Wire                OmokProtocol/OmokProtocol.h (the CS_ structures) and User.cpp: the packets
--                       that clients put together, and what the handlers read from them
--   Wire/Serve          NetLib/Session.cpp (DispatchReceive) together with these handlers
--   Wire/Password       the packet of OkButton.cpp without a password, at the server
--   Net/Packet          NetLib/Packet.cpp: Add, AddWString, Get, GetWString and the operators
--   Net/Packet/Framing  a packet that is put together, in the memory of the receiver
--   Net/Ring            NetLib/RingBuffer.cpp
--   Net/Receive         NetLib/Session.cpp (DispatchReceive, WaitForPacketReceive)
--   Net/Send            NetLib/Session.cpp (SendPacket with its buffer, SendMsgCheck,
--                       SendLessProcess)
--   Net/Socket          CoreNetClientLib/NetWorkClient.cpp (SendPacket, RecvPacket, RecvProcess)
--   Client              the state of a client: Player.h, GameScene.h, RoomUI.h, ChannelScene.h and
--                       ClientServer.h of DXClient, PlayerManager.cpp, the pointers of Scene
--   Client/Rooms        DXClient/ChannelScene.cpp and RoomUI.cpp: the rows of the rooms
--   Client/Ground       DXClient/GameScene.cpp and OmokGround.cpp: the board, the cell of a click
--   Client/Lobby, Play, Exits   DXClient/ClientServer.cpp: the handlers; Player.cpp (statistics)
--   Client/Columns, Dispatch    DXClient/ClientServer.cpp: reading the packets, ProcessRecvPacket
--   Client/Buttons      DXClient/OmokGround.cpp (HitSelect), StartBtn.cpp, ReadyBtn.cpp, ExitBtn.cpp
--   Client/Dialogs      DXClient/LoginUI.cpp, SignUpUI.cpp, CreateRoomUI.cpp with RoomMakeUI.cpp,
--                       CancleButton.cpp and OkButton.cpp: their fields, keys, clicks, packets
--   Core/Input          CoreLib/Input.cpp: the states of the keys and of the mouse
--   Core/Objects        CoreLib/ObjectManager.cpp and .h, with SetCollision of DXObject.cpp and
--                       ChangeScene of Scene.cpp: the objects of the scenes and their functions
--   Core/Select         CoreLib/ObjectManager.cpp (Update) and Collision.cpp (RectToPoint): what is
--                       under the mouse
--   Client/Buttons/Quick        DXClient/QuickStartUI.cpp, and CanEnter of RoomUI.cpp
--   Client/Play/Agreement, Rooms/Mirror, Rooms/Together, Columns/Listed, and of Dispatch: Turns,
--   Settled, Listing, Told, Joined      the client against the server
-- The other files below these hold the lemmas and theorems about them, Tests the runs at concrete
-- values, and Base what all share.
--
-- How the code is read. A handler is a function of the server's state that gives the new state, or
-- `none` where C++ leaves the behaviour open: a null or dangling pointer, an index outside of an
-- array, a CopyMemory of overlapping bytes. Handlers run one at a time. Pointers to players and
-- users are addresses into a heap; a room is changed through its place in the table, which stands
-- for the pointer that FindRoom gives. uInt32 and uInt16 wrap as written. A float is the expression
-- that computes it. The fields that a handler reads from its packet are its arguments, and so is
-- what the database answers; Wire gives the handlers their fields from the bytes of the packet, and
-- a function of the server's state for the answers. An unordered_map is an association list, whose order stands for the
-- order of iteration. Whether WSASend succeeds is a function of the session that the network
-- chooses. In Server, a send is taken to get its event (WaitForSingleObject) and its bytes in the send
-- buffer, and a message has no size: a packet that does not fit into its 2048 bytes, a session whose
-- last send does not end, and a full send buffer are in Net/Packet and Net/Send only. Counts of games
-- are the 32 bits of an int32, which wrap, where the overflow is undefined in C++.
--
-- A client is read in the same way, with its own state. Floats that are compared, those of a click,
-- come from a record of operations, which stands for the machine's arithmetic. What the calls of the
-- sockets return is a parameter. A dialog is a record of its fields, an event is a frame with the
-- keys that are pressed in it or a click, and a run is a list of events.
--
-- Bounds and fuel. The board is 19 x 19 and the loops on it go by their count of 5. A packet holds
-- 2048 bytes of data behind a header of 4, a ring buffer 20480 bytes. The loop of DispatchReceive
-- runs on fuel, since it does not end on a packet of length 0; the theorem about it says how much is
-- enough; the run with the handlers in it is on fuel too, one more than there are bytes. So do the loops around send and recv of the client, which end only as the system lets
-- them. The reader of a wide string goes no further than the data.
--
-- Not modelled: threads, completion ports, the opening and closing of sockets, the ODBC driver, all
-- that is drawn or played, message boxes, the creation and deletion of the client's scenes and
-- objects, and the rest of the graphics library CoreLib.
pub mod Base
pub mod Client
pub mod Core
pub mod Net
pub mod Omok
pub mod Protocol
pub mod Server
pub mod Wire
